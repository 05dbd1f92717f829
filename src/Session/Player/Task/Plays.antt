-- ===== src/Session/Player/Task/Plays.antt =====
-- What the player task of xiaoai-agent/src/qwen_voice.rs plays after a clear, and what a drain that
-- comes during a write leaves out.
use mathlib.Core.List.{append_assoc, append-nil}
use xiaoai_agent.Prelude.{
  ℕ, ◌≡◌, refl, sym, ap, ◌∙◌, Bool, true, false, ◌&&◌, List, [], ◌∷◌, ◌++◌, Option, none, some,
  take, if◌then◌else◌, arith,
}
use xiaoai_agent.Session.Player.{drain}
use xiaoai_agent.Session.Player.Task.{
  SpawnAnswer, spawned, refused, spawn_failed, completed, write_cleared, write_failed,
  write_control, Event, arrive, clear_changed, senders_gone, control_changed, receive, Task, clear,
  write_block, with_process, take_block, step, has_ended, player_loop, flatten, drain_queue,
}

-- Blocks come, and are taken and written whole.
abbrev pub is_smooth : Event → Bool
is_smooth (arrive bytes) = true
is_smooth (receive spawned completed) = true
is_smooth _ = false

abbrev pub all_smooth : List Event → Bool
all_smooth [] = true
all_smooth (e ∷ events) = is_smooth e && all_smooth events

abbrev pub arrivals : List Event → List (List ℕ)
arrivals [] = []
arrivals (arrive bytes ∷ events) = bytes ∷ arrivals events
arrivals (_ ∷ events) = arrivals events

flatten-append : (a b : List (List ℕ)) → flatten (a ++ b) ≡ flatten a ++ flatten b
flatten-append [] b = refl
flatten-append (x ∷ a) b =
    ap (x ++◌) (flatten-append a b) ∙ sym (append_assoc x (flatten a) (flatten b))

abbrev given : Task → List ℕ
given t = elim t.process [ none ↦ [] | some out ↦ out ]

-- All that has come since the last clear, played or not.
abbrev pending : Task → List ℕ
pending t = given t ++ flatten t.queue

arrive-pending :
    (bytes : List ℕ) (t : Task) → pending (step true (arrive bytes) t) ≡ pending t ++ bytes
unfolding step
arrive-pending bytes t =
    ap (given t ++◌)
      (flatten-append t.queue (bytes ∷ []) ∙ ap (flatten t.queue ++◌) (append-nil bytes))
    ∙ sym (append_assoc (given t) (flatten t.queue) bytes)

receive-pending :
    (queue : List (List ℕ)) (process : Option (List ℕ)) (may_spawn : Bool) (t : Task)
    → t.queue ≡ queue
    → t.process ≡ process
    → t.may_spawn ≡ may_spawn
    → (pending (step true (receive spawned completed) t) ≡ pending t)
      × ((step true (receive spawned completed) t).ending ≡ t.ending)
unfolding step take_block with_process write_block
receive-pending [] process may_spawn t q p m = rw q (refl, refl)
receive-pending (bytes ∷ rest) (some out) may_spawn t q p m =
    rw (q, p) (append_assoc out bytes (flatten rest), refl)
receive-pending (bytes ∷ rest) none true t q p m = rw (q, p, m) (refl, refl)
receive-pending (bytes ∷ rest) none false t q p m = rw (q, p, m) (refl, refl)

loop-step :
    (e : Event) (events : List Event) (t : Task)
    → t.ending ≡ none
    → player_loop true (e ∷ events) t ≡ player_loop true events (step true e t)
unfolding player_loop
loop-step e events t none_yet =
    let goes_on : has_ended t ≡ false = ground arith in
    ap (λ (b : Bool). player_loop true events (if b then t else step true e t)) goes_on

loop-pending :
    (events : List Event) (t : Task)
    → all_smooth events ≡ true
    → t.ending ≡ none
    → pending (player_loop true events t) ≡ pending t ++ flatten (arrivals events)
loop-pending [] t h e = unfold player_loop in sym (append-nil (pending t))
loop-pending (arrive bytes ∷ events) t h e =
    let next = step true (arrive bytes) t in
    ap pending (loop-step (arrive bytes) events t e)
    ∙ loop-pending events next h (unfold step in e)
    ∙ ap (λ (bs : List ℕ). bs ++ flatten (arrivals events)) (arrive-pending bytes t)
    ∙ append_assoc (pending t) bytes (flatten (arrivals events))
loop-pending (receive spawned completed ∷ events) t h e =
    let next = step true (receive spawned completed) t in
    let (same, ending) = receive-pending t.queue t.process t.may_spawn t refl refl refl in
    ap pending (loop-step (receive spawned completed) events t e)
    ∙ loop-pending events next h (ending ∙ e)
    ∙ ap (λ (bs : List ℕ). bs ++ flatten (arrivals events)) same
loop-pending (clear_changed ∷ events) t h e = ground arith
loop-pending (senders_gone ∷ events) t h e = ground arith
loop-pending (control_changed c ∷ events) t h e = ground arith
loop-pending (receive spawned (write_cleared n) ∷ events) t h e = ground arith
loop-pending (receive spawned (write_failed n) ∷ events) t h e = ground arith
loop-pending (receive spawned (write_control c n) ∷ events) t h e = ground arith
loop-pending (receive refused end ∷ events) t h e = ground arith
loop-pending (receive spawn_failed end ∷ events) t h e = ground arith

clear-pending : (t : Task) → pending (clear true t) ≡ []
unfolding clear
clear-pending t = ground arith

clear-ending : (t : Task) → (clear true t).ending ≡ t.ending
unfolding clear
clear-ending t = ground arith

drained : (t : Task) {out : List ℕ} → (drain_queue t).process ≡ some out → out ≡ pending t
unfolding drain_queue
drained t h = ground arith

-- On a player that is restarted on a clear, what the child is given that plays to the end is, byte by
-- byte and in order, what came after the last clear: nothing from before the clear, nothing left out
-- and nothing twice, if from then on blocks are taken and written whole and the session then drains.
pub clear-plays :
    (events : List Event) (t : Task) {out : List ℕ}
    → all_smooth events ≡ true
    → t.ending ≡ none
    → (drain_queue (player_loop true events (step true clear_changed t))).process ≡ some out
    → out ≡ flatten (arrivals events)
clear-plays events t smooth going h =
    let cleared = clear true t in
    let at_once : step true clear_changed t ≡ cleared = unfold step in refl in
    drained (player_loop true events (step true clear_changed t)) h
    ∙ ap (λ (u : Task). pending (player_loop true events u)) at_once
    ∙ loop-pending events cleared smooth (clear-ending t ∙ going)
    ∙ ap (λ (bs : List ℕ). bs ++ flatten (arrivals events)) (clear-pending t)

-- A drain that comes while a block is written gives the child the bytes of the block that are in the
-- pipe already and then the later blocks: the rest of the block is left out.
pub drain_during_write-plays :
    (restart_on_clear : Bool) (answer : SpawnAnswer) (n : ℕ) (out bytes : List ℕ)
    (rest : List (List ℕ)) (t : Task)
    → t.queue ≡ bytes ∷ rest
    → t.process ≡ some out
    → let left = drain_queue (step restart_on_clear (receive answer (write_control drain n)) t) in
      left.process ≡ some ((out ++ take n bytes) ++ flatten rest)
unfolding step take_block write_block drain_queue
drain_during_write-plays restart_on_clear answer n out bytes rest t q p = rw (q, p) refl
