-- ===== src/Tests/Formation.antt =====
-- The theorems on the start of the master, at two nodes that ask for their addresses; and what is seen of
-- the LED code 12.
use wbms.Prelude.{
  ◌≡◌, ◌++◌, refl, false, true, List, [], ◌∷◌, arith, none, some, map, replicate, ltb→lt,
}
use wbms.Types.{addr_rp, le32, le16}
use wbms.Kernel.Simulated.{World, simulated, boot}
use wbms.Bms.{Bms, done}
use wbms.Samples.{master}
use wbms.NetMgr.Clients.Series.{IsSeries}
use wbms.Mesh.Send.{message}
use wbms.Mesh.Handlers.{token_code}
use wbms.Invariant.Events.{Event, addr_rq_received}
use wbms.App.Forming.{Asks, asks_nil, asks_cons, answered}
use wbms.Preload.{poll, rx_line, rx_loop, go_on, is_end, starts_with}
use wbms.Led.{fatal_rounds}
use wbms.Led.Codes.{watch, watch-fatal_rounds}
use wbms.Startup.{
  DetectRound, updating, detect, configure, bt_ready, ran, main_bms, mesh_init, settings_load,
  provision, app_key_add, app_bind, sub_add,
}
use wbms.Startup.Update.{
  Silent, silent_nil, silent_cons, lines_nil, lines_none, lines_heard, any_word, detect-Lines,
}
use wbms.Preload.Lines.{heard_end, heard_byte}
use wbms.Startup.Master.{main_bms-Series}

abbrev requests : List Event
requests = addr_rq_received 1 (7 ∷ 1 ∷ 0 ∷ 0 ∷ []) ∷ addr_rq_received 1 (9 ∷ 0 ∷ 0 ∷ 0 ∷ []) ∷ []

requests-Asks : Asks requests (263 ∷ 9 ∷ [])
unfolding token_code
requests-Asks = asks_cons (omega arith) refl (asks_cons (omega arith) refl asks_nil)

-- The answers give 16 to the first and 17 to the second.
answers :
    (answered ⦃k = simulated⦄ 0 (263 ∷ 9 ∷ []) boot).sent
    ≡ message addr_rp 1 (le32 263 ∷ le16 16 ∷ []) ∷ message addr_rp 1 (le32 9 ∷ le16 17 ∷ []) ∷ []
unfolding answered
answers = refl

-- At 40 RXLine is called and hears nothing until 141; at 16000 the time is over.
abbrev quiet : DetectRound
quiet = record { now = 30; entry = 40; polls = poll 60 none ∷ poll 141 none ∷ [] }

abbrev late : DetectRound
late = record { now = 16000; entry = 0; polls = [] }

quiet-Silent : Silent 20 (replicate 64 0) (quiet ∷ [])
unfolding rx_line rx_loop go_on
quiet-Silent = silent_cons (ltb→lt 10 15000 refl) refl silent_nil

main_bms-Series_example :
    (s' : Bms World) × (main_bms ⦃k = simulated⦄ 1 20
        (quiet ∷ late ∷ [])
        (replicate 64 0)
        requests
        (master 16)
      ≡ ran (done false s'))
    × IsSeries 2 s'
    × (s'.world ≡ answered ⦃k = simulated⦄ 0 (263 ∷ 9 ∷ []) boot)
main_bms-Series_example =
    main_bms-Series ⦃k = simulated⦄ (λ m w. refl) 1 20 (quiet ∷ []) [] late (replicate 64 0)
      requests (263 ∷ 9 ∷ []) (master 16) quiet-Silent (omega arith) requests-Asks (omega arith)
      refl refl refl

-- At 50 RXLine hears "fwupd1".
abbrev word : DetectRound
word = record {
  now = 45;
  entry = 50;
  polls = map (λ c. poll 51 (some c)) (102 ∷ 119 ∷ 117 ∷ 112 ∷ 100 ∷ 49 ∷ 13 ∷ []);
}

started : detect 20 (quiet ∷ word ∷ []) (replicate 64 0) ≡ updating
unfolding detect rx_line rx_loop go_on is_end starts_with
started = refl

-- After a look at which nothing is heard, one line that is another and one that begins with the word.
abbrev other : DetectRound
other = record {
  now = 45;
  entry = 50;
  polls = map (λ c. poll 51 (some c)) (104 ∷ 101 ∷ 108 ∷ 108 ∷ 111 ∷ 13 ∷ []);
}

detect-Lines_example :
    detect 20 ((quiet ∷ other ∷ word ∷ []) ++ late ∷ []) (replicate 64 0) ≡ updating
unfolding go_on is_end rx_line rx_loop any_word starts_with
detect-Lines_example =
    detect-Lines 20 (quiet ∷ other ∷ word ∷ []) [] late
      ((104 ∷ 101 ∷ 108 ∷ 108 ∷ 111 ∷ []) ∷ (102 ∷ 119 ∷ 117 ∷ 112 ∷ 100 ∷ 49 ∷ []) ∷ [])
      (replicate 64 0)
      (lines_none (ltb→lt 10 15000 refl) (λ b. refl)
        (lines_heard (ltb→lt 25 15000 refl)
          (heard_byte refl refl (
            heard_byte refl refl (
              heard_byte refl refl
                (heard_byte refl refl (heard_byte refl refl (heard_end refl refl))))))
          (omega arith) (omega arith)
          (lines_heard (ltb→lt 25 15000 refl)
            (heard_byte refl refl (
              heard_byte refl refl (
                heard_byte refl refl (
                  heard_byte refl refl
                    (heard_byte refl refl (heard_byte refl refl (heard_end refl refl)))))))
            (omega arith) (omega arith) lines_nil)))
      refl (omega arith)

-- All calls of a board that starts and is not yet provisioned.
all_calls :
    bt_ready (record { initialised = 0; provisioned = 0; already = 120; settings = true }) 224 0
    ≡ mesh_init
      ∷ settings_load
      ∷ provision 224
      ∷ app_key_add 224
      ∷ app_bind 224
      ∷ sub_add 224 0xc000
      ∷ []
unfolding bt_ready configure
all_calls = refl

watch-fatal_rounds_example : watch false 0 0 (fatal_rounds 3 12) ≡ 12 ∷ 12 ∷ []
watch-fatal_rounds_example = watch-fatal_rounds 2 12 (omega arith)
