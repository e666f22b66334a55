-- ===== src/Kernel/Simulated.antt =====
-- A concrete kernel, at which the theorems are instantiated: queues are lists, the clock advances
-- by one with each reading, every call succeeds, and messages and timers are recorded.
use wbms.Prelude.{
  ℕ, ◌+◌, ◌*◌, Bool, true, false, Option, none, some, List, [], ◌∷◌, ◌++◌, ltb, if◌then◌else◌,
  length, ◌≡◌, refl, arith, Bool-cases, inl, inr,
}
use wbms.Types.{TxTokPkt, RxCvPkt, Lat, FifoData, Message, Timer}
use wbms.Kernel.{Msgq, Fifo, Kernel}
use wbms.Kernel.Laws.{IsMsgq, IsFifo}

pub record World : Type 0 where
  pub clock : ℕ
  pub sent : List Message
  pub started : List Timer
  pub rx : List RxCvPkt
  pub tx : List TxTokPkt
  pub addrs : List FifoData
  pub data_addrs : List FifoData
  pub lats : List Lat

abbrev pub boot : World
boot = record {
  clock = 0;
  sent = [];
  started = [];
  rx = [];
  tx = [];
  addrs = [];
  data_addrs = [];
  lats = [];
}

module _ {A : Type 0} (view : World → List A) (store : World → List A → World) where
  abbrev pub take_first : World → List A → Option A × World
  take_first w [] = (none, w)
  take_first w (x ∷ xs) = (some x, store w xs)

  abbrev pub list_msgq : ℕ → Msgq World A
  list_msgq cap = record {
    num_used = λ w. length (view w);
    get = λ w. take_first w (view w);
    put =
        λ a w. if ltb (length (view w)) cap then (false, store w (view w ++ a ∷ [])) else (true, w);
  }

  abbrev pub list_is_empty : List A → Bool
  list_is_empty [] = true
  list_is_empty (x ∷ xs) = false

  abbrev pub list_fifo : Fifo World A
  list_fifo = record {
    is_empty = λ w. list_is_empty (view w);
    get = λ w. take_first w (view w);
    put = λ a w. store w (view w ++ a ∷ []);
  }

  -- What is not in the queue stays.
  module _ {X : Type 0} (other : World → X)
      (apart : (w : World) (l : List A) → other (store w l) ≡ other w) where
    pub other-get : (w : World) (l : List A) → other (take_first w l).1 ≡ other w
    other-get w [] = refl
    other-get w (x ∷ xs) = apart w xs

    pub other-put : (cap : ℕ) (a : A) (w : World) → other ((list_msgq cap).put a w).1 ≡ other w
    other-put cap a w = elim (Bool-cases (ltb (length (view w)) cap)) [
      | inl room ↦ rw room (apart w (view w ++ a ∷ []))
      | inr full ↦ rw full refl
    ]

  module _ (law : (w : World) (l : List A) → view (store w l) ≡ l) where
    pub list_msgq-IsMsgq : (cap : ℕ) → IsMsgq (list_msgq cap) view cap
    list_msgq-IsMsgq cap = record {
      used = λ w. refl;
      get_nil = λ w e. ground arith;
      get_cons = λ w x xs e. ground (arith, law w xs);
      put_room = λ w a h. ground (arith, law w (view w ++ a ∷ []));
      put_full = λ w a h. ground arith;
    }

    pub list_fifo-IsFifo : IsFifo list_fifo view
    list_fifo-IsFifo = record {
      empty_nil = λ w e. ground arith;
      empty_cons = λ w x xs e. ground arith;
      get_cons = λ w x xs e. ground (arith, law w xs);
      put_back = λ w a. law w (view w ++ a ∷ []);
    }

abbrev pull : List ℕ → Option (ℕ × List ℕ)
pull [] = none
pull (x ∷ xs) = some (x, xs)

abbrev pull_two : List ℕ → Option (ℕ × List ℕ)
pull_two (a ∷ b ∷ xs) = some (a + 256 * b, xs)
pull_two _ = none

abbrev pull_four : List ℕ → Option (ℕ × List ℕ)
pull_four (a ∷ b ∷ c ∷ d ∷ xs) = some (a + 256 * b + 65536 * c + 16777216 * d, xs)
pull_four _ = none

abbrev sum_of : List ℕ → ℕ
sum_of [] = 0
sum_of (x ∷ xs) = x + sum_of xs

abbrev pub simulated : Kernel World
simulated = record {
  uptime = λ w. (w.clock, record w { clock = w.clock + 1 });
  mesh_send = λ m w. (false, record w { sent = w.sent ++ m ∷ [] });
  malloc = λ w. (true, w);
  release = λ w. w;
  timer_start = λ t n w. record w { started = t ∷ w.started };
  timer_stop = λ t w. w;
  timer_remaining = λ t w. 0;
  pull_u8 = pull;
  pull_le16 = pull_two;
  pull_le32 = pull_four;
  rx_msgq = list_msgq (λ w. w.rx) (λ w l. record w { rx = l }) 6;
  tx_msgq = list_msgq (λ w. w.tx) (λ w l. record w { tx = l }) 40;
  addr_fifo = list_fifo (λ w. w.addrs) (λ w l. record w { addrs = l });
  data_addr_fifo = list_fifo (λ w. w.data_addrs) (λ w l. record w { data_addrs = l });
  hil_txqueue = list_fifo (λ w. w.lats) (λ w l. record w { lats = l });
  crc16_ansi = sum_of;
  fnv_32a_str = λ l n. n + sum_of l;
}

-- Where every send fails.
abbrev pub deaf : Kernel World
deaf = record (simulated) { mesh_send = λ m w. (true, w) }

pub tx_msgq-IsMsgq : IsMsgq simulated.tx_msgq (λ w. w.tx) 40
tx_msgq-IsMsgq = list_msgq-IsMsgq (λ w. w.tx) (λ w l. record w { tx = l }) (λ w l. refl) 40

pub rx_msgq-IsMsgq : IsMsgq simulated.rx_msgq (λ w. w.rx) 6
rx_msgq-IsMsgq = list_msgq-IsMsgq (λ w. w.rx) (λ w l. record w { rx = l }) (λ w l. refl) 6

pub data_addr_fifo-IsFifo : IsFifo simulated.data_addr_fifo (λ w. w.data_addrs)
data_addr_fifo-IsFifo =
    list_fifo-IsFifo (λ w. w.data_addrs) (λ w l. record w { data_addrs = l }) (λ w l. refl)

pub addr_fifo-IsFifo : IsFifo simulated.addr_fifo (λ w. w.addrs)
addr_fifo-IsFifo = list_fifo-IsFifo (λ w. w.addrs) (λ w l. record w { addrs = l }) (λ w l. refl)
