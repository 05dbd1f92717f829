-- ===== src/Mcp.antt =====
-- `NativeMcpRouting` of xiaoai-agent/src/mcp.rs: the tools that go to the native client, and the
-- cancellation of its service. A lock that a panic has poisoned is an argument.
pub mod Cancels
use xiaoai_agent.Prelude.{
  ℕ, Bool, true, false, not, ◌&&◌, ◌||◌, List, [], ◌∷◌, ◌++◌, Option, none, some, String, str_eq,
  if◌then◌else◌,
}

pub record NativeMcpRouting : Type 0 where
  pub tools : List String
  pub failed : Bool

pub data RoutingResult : Type 0 where
  routed lock_poisoned : RoutingResult

abbrev pub fail_closed : NativeMcpRouting → NativeMcpRouting
fail_closed r = record r { failed = true }

abbrev pub contains : List String → String → Bool
contains [] name = false
contains (t ∷ ts) name = str_eq t name || contains ts name

unfoldable pub replace_tools :
    Bool → List String → NativeMcpRouting → NativeMcpRouting × RoutingResult
replace_tools poisoned tools r =
    if poisoned then (fail_closed r, lock_poisoned) else (record r { tools = tools }, routed)

abbrev pub is_empty : List String → Bool
is_empty [] = true
is_empty (t ∷ ts) = false

unfoldable pub initialize_tools :
    Bool → List String → NativeMcpRouting → NativeMcpRouting × RoutingResult
initialize_tools poisoned tools r =
    if poisoned
    then (fail_closed r, lock_poisoned)
    else (if is_empty r.tools then (record r { tools = tools }, routed) else (r, routed))

unfoldable pub routes_tool : Bool → String → NativeMcpRouting → NativeMcpRouting × Bool
routes_tool poisoned name r = if poisoned then (fail_closed r, true) else (r, contains r.tools name)

-- `install_service_cancellation`, at its first test, before the lock, with the lock, behind the second
-- test, with the token to cancel, and at its end.
pub data Installer : Type 0 where
  install_begins install_waits install_locked install_stores install_cancels install_done :
      Installer

-- `fail_closed_and_cancel`, before the flag, before the lock, with what it took, and at its end.
pub data Failer : Type 0 where
  fail_begins fail_waits : Failer
  fail_took : Option ℕ → Failer
  fail_done : Failer

-- The two calls on one routing: its flag, its slot, and the tokens cancelled so far.
pub record Race : Type 0 where
  pub failed : Bool
  pub slot : Option ℕ
  pub cancelled : List ℕ
  pub installer : Installer
  pub failer : Failer

-- One call's turn.
unfoldable pub install_turn : ℕ → Installer → Race → Race
install_turn token install_begins s = record s {
  installer = if s.failed then install_cancels else install_waits;
}
install_turn token install_waits s = record s { installer = install_locked }
install_turn token install_locked s = record s {
  installer = if s.failed then install_cancels else install_stores;
}
install_turn token install_stores s = record s { slot = some token; installer = install_done }
install_turn token install_cancels s = record s {
  cancelled = token ∷ s.cancelled;
  installer = install_done;
}
install_turn token install_done s = s

-- The installer has the lock of the slot.
abbrev pub is_locked : Installer → Bool
is_locked install_locked = true
is_locked install_stores = true
is_locked _ = false

unfoldable pub fail_turn : Failer → Race → Race
fail_turn fail_begins s = record s { failed = true; failer = fail_waits }
fail_turn fail_waits s =
    if is_locked s.installer then s else record s { slot = none; failer = fail_took s.slot }
fail_turn (fail_took none) s = record s { failer = fail_done }
fail_turn (fail_took (some token)) s = record s {
  cancelled = token ∷ s.cancelled;
  failer = fail_done;
}
fail_turn fail_done s = s

pub data Turn : Type 0 where
  installs fails : Turn

-- The turns in the order in which they come.
unfoldable pub race : ℕ → List Turn → Race → Race
unfolding install_turn fail_turn
race token [] s = s
race token (installs ∷ turns) s = race token turns (install_turn token s.installer s)
race token (fails ∷ turns) s = race token turns (fail_turn s.failer s)
