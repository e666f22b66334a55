-- ===== src/Startup.antt =====
-- Start-up: `main` of src/main.c, the wait for a firmware update in it, and how src/hg_mesh.c brings up the
-- mesh. What the mesh stack answers, and when it calls back, is given.
pub mod Update
pub mod Master
use wbms.Prelude.{
  ℕ, Bool, true, false, ◌&&◌, ◌||◌, List, [], ◌∷◌, ◌++◌, ltb, ◌==◌, not, if◌then◌else◌, sub_u32,
}
use wbms.Kernel.{Kernel}
use wbms.Bms.{Bms, Run, done, halted, fault, no_fuel, Cmd, ◌>>=◌, ◌>>◌, nodes_num}
use wbms.NetMgr.Latency.{init_config_st}
use wbms.Invariant.Events.{Event, handle_all}
use wbms.Preload.{Poll, line, polling, overflow, rx_line, fwupd, starts_with}
use wbms.App.{bms_init, forming}

-- The calls of the mesh stack that src/hg_mesh.c makes, with the arguments that the program sets.
pub data Call : Type 0 where
  mesh_init settings_load : Call
  provision app_key_add app_bind : ℕ → Call
  sub_add : ℕ → ℕ → Call

-- `configure`, with `hwAddr`; 0xc000 is GROUP_ADDR
unfoldable pub configure : ℕ → List Call
configure hw = app_key_add hw ∷ app_bind hw ∷ sub_add hw 0xc000 ∷ []

-- What `bt_mesh_init` and `bt_mesh_provision` return, the value of -EALREADY, and whether
-- CONFIG_BT_SETTINGS is set.
pub record Answers : Type 0 where
  pub initialised : ℕ
  pub provisioned : ℕ
  pub already : ℕ
  pub settings : Bool

-- `mercury_mesh_BTReady`: the calls that it makes.
unfoldable pub bt_ready : Answers → ℕ → ℕ → List Call
unfolding configure
bt_ready r hw err =
    if not (err == 0)
    then []
    else mesh_init
      ∷ (if not (r.initialised == 0)
          then []
          else (if r.settings then settings_load ∷ [] else [])
            ++ provision hw
              ∷ (if r.provisioned == r.already
                  then []
                  else if not (r.provisioned == 0)
                  then []
                  else configure hw))

-- The addresses of the master: the word that survives a reset, `meshAddr` and `hwAddr`.
pub record MasterAddr : Type 0 where
  pub uicr_customer0 : ℕ
  pub mesh_addr : ℕ
  pub hw_addr : ℕ

-- `board_init` of the master: 224 is NODE_BMS_ADDR
unfoldable pub board_init_bms : MasterAddr → MasterAddr
board_init_bms a =
    if a.uicr_customer0 == 0 || a.uicr_customer0 == 0xffff
    then (record { uicr_customer0 = 224; mesh_addr = 224; hw_addr = 224 })
    else a

-- One round of the wait for an update: `k_cycle_get_32` in its condition, the time at which RXLine is
-- called, and what it polls.
pub record DetectRound : Type 0 where
  pub now : ℕ
  pub entry : ℕ
  pub polls : List Poll

-- How the wait goes: the update starts, the time is over, RXLine polls on or writes behind the buffer; or
-- it is not at its end.
pub data Detect : Type 0 where
  updating over stuck overwrites waiting : Detect

-- The loop, with `buffer`.
unfoldable pub detect : ℕ → List DetectRound → List ℕ → Detect
detect s_time [] buffer = waiting
detect s_time (l ∷ ls) buffer =
    let next : Detect = elim (rx_line l.entry 100 l.polls buffer) [
      | line dest size ↦
          let rest = detect s_time ls dest in
          if ltb 0 size && starts_with fwupd dest then updating else rest
      | polling dest size ↦ stuck
      | overflow pos ↦ overwrites
    ] in
    if ltb (sub_u32 l.now s_time) 15000 then next else over

-- How `main` of the master goes: it is left in the wait for an update, starts one, or the rest of it
-- runs, to the creation of its two threads if that is `true`.
pub data Boot (W : Type 0) : Type 0 where
  left : Detect → Boot W
  ran : Run W Bool → Boot W

module _ {W : Type 0} ⦃k : Kernel W⦄ where
  -- What `main` does behind the wait for an update, with the events that are handled from
  -- `mercury_mesh_init` on: a failure to bring up the mesh is only printed.
  unfoldable pub master_up : ℕ → List Event → Cmd W Bool
  master_up fuel es s =
      (bms_init >> init_config_st (nodes_num s) >> handle_all fuel es >> forming) s

  -- `main` of the master
  unfoldable pub main_bms : ℕ → ℕ → List DetectRound → List ℕ → List Event → Bms W → Boot W
  unfolding detect
  main_bms fuel s_time ls buffer es s = elim (detect s_time ls buffer) [
    | over ↦ ran (master_up fuel es s)
    | updating ↦ left updating
    | stuck ↦ left stuck
    | overwrites ↦ left overwrites
    | waiting ↦ left waiting
  ]
