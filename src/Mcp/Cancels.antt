-- ===== src/Mcp/Cancels.antt =====
-- A failure of the routing of xiaoai-agent/src/mcp.rs and an installation of its cancellation.
use xiaoai_agent.Prelude.{
  ℕ, ◌≡◌, refl, Bool, true, false, not, ◌&&◌, ◌||◌, List, [], ◌∷◌, Option, none, some, ◌==◌, arith,
}
use xiaoai_agent.Mcp.{
  Installer, install_begins, install_waits, install_locked, install_stores, install_cancels,
  install_done, Failer, fail_begins, fail_waits, fail_took, fail_done, Race, install_turn,
  fail_turn, Turn, installs, fails, race,
}

abbrev pub has : ℕ → List ℕ → Bool
has n [] = false
has n (m ∷ ms) = (m == n) || has n ms

abbrev pub is_token : ℕ → Option ℕ → Bool
is_token n none = false
is_token n (some m) = m == n

abbrev is_done : Installer → Bool
is_done install_done = true
is_done _ = false

abbrev is_storing : Installer → Bool
is_storing install_stores = true
is_storing _ = false

-- The failing call has not looked into the slot.
abbrev is_early : Failer → Bool
is_early fail_begins = true
is_early fail_waits = true
is_early _ = false

abbrev took : ℕ → Failer → Bool
took n (fail_took o) = is_token n o
took n _ = false

abbrev is_before : Failer → Bool
is_before fail_begins = true
is_before _ = false

-- Where the token is, and that the installer stores it only before the slot is taken.
abbrev Tracked : ℕ → Race → Type 0
Tracked n s =
    ((not (is_done s.installer)
        || (has n s.cancelled || ((is_token n s.slot && is_early s.failer) || took n s.failer)))
      ≡ true)
    × ((not (is_storing s.installer) || is_early s.failer) ≡ true)
    × ((is_before s.failer || s.failed) ≡ true)

install-Tracked :
    (n : ℕ) (i : Installer) (s : Race)
    → s.installer ≡ i
    → Tracked n s
    → Tracked n (install_turn n i s)
unfolding install_turn
install-Tracked n install_begins s e h = ground arith
install-Tracked n install_waits s e h = ground arith
install-Tracked n install_locked s e h = ground arith
install-Tracked n install_stores s e h = ground arith
install-Tracked n install_cancels s e h = ground arith
install-Tracked n install_done s e h = ground arith

fail-Tracked :
    (n : ℕ) (f : Failer) (s : Race) → s.failer ≡ f → Tracked n s → Tracked n (fail_turn f s)
unfolding fail_turn
fail-Tracked n fail_begins s e h = ground arith
fail-Tracked n fail_waits s e h = ground arith
fail-Tracked n (fail_took none) s e h = ground arith
fail-Tracked n (fail_took (some m)) s e h = ground arith
fail-Tracked n fail_done s e h = ground arith

race-Tracked : (n : ℕ) (turns : List Turn) (s : Race) → Tracked n s → Tracked n (race n turns s)
unfolding race
race-Tracked n [] s h = h
race-Tracked n (installs ∷ turns) s h =
    race-Tracked n turns (install_turn n s.installer s) (install-Tracked n s.installer s refl h)
race-Tracked n (fails ∷ turns) s h =
    race-Tracked n turns (fail_turn s.failer s) (fail-Tracked n s.failer s refl h)

abbrev pub both_begin : Bool → Option ℕ → List ℕ → Race
both_begin failed slot cancelled = record {
  failed = failed;
  slot = slot;
  cancelled = cancelled;
  installer = install_begins;
  failer = fail_begins;
}

-- However the turns of an installation and of a failure come, once both calls are at their ends the
-- token that was being installed has been cancelled.
pub race-cancels :
    (token : ℕ) (turns : List Turn) (failed : Bool) (slot : Option ℕ) (cancelled : List ℕ)
    → (race token turns (both_begin failed slot cancelled)).installer ≡ install_done
    → (race token turns (both_begin failed slot cancelled)).failer ≡ fail_done
    → has token (race token turns (both_begin failed slot cancelled)).cancelled ≡ true
race-cancels token turns failed slot cancelled hi hf =
    let (tracked, _, _) =
      race-Tracked token turns (both_begin failed slot cancelled) (refl, refl, refl) in
    ground arith
