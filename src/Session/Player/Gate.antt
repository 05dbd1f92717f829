-- ===== src/Session/Player/Gate.antt =====
-- What the playback gate of xiaoai-agent/src/qwen_voice.rs lets through, with the calls of the decoder task
-- and of the event loop interleaved.
use xiaoai_agent.Prelude.{
  ℕ, ◌≡◌, refl, sym, ap, Bool, true, false, List, [], ◌∷◌, arith, ◌∙◌, ◌⊎◌, inl, inr, if◌then◌else◌,
}
use xiaoai_agent.Session.Player.{
  Player, TrySend, sent, send_full, send_closed, TryAudio, running_seen, gate_passed, block_taken,
  answered, is_running, try_audio, try_audio_on, load_gate, send_block, stop, interrupt_playback,
  shut_gate, send_clear, begin_response, finish,
}

-- The handle with the call of the decoder task, and whether the event loop is inside an interruption,
-- behind the store that shuts the gate.
pub record Handle : Type 0 where
  pub player : Player
  pub decoder : TryAudio
  pub interrupting : Bool

-- What a task does between two points at which another can come in. The decoder calls `try_audio` and
-- goes on with the call; the event loop interrupts in two parts, and begins a response only outside an
-- interruption.
pub data Action : Type 0 where
  tries : List ℕ → Action
  goes_on : TrySend → Action
  stops finishes : Bool → Action
  shuts_gate clears : Action
  begins : ℕ → Action

-- The decoder calls again once the call before has returned.
abbrev pub has_returned : TryAudio → Bool
has_returned (answered r) = true
has_returned _ = false

unfoldable pub act : Action → Handle → Handle
unfolding try_audio try_audio_on stop begin_response finish
act (tries bytes) h =
    if has_returned h.decoder then record h { decoder = try_audio bytes h.player } else h
act (goes_on answer) h =
    let (player, decoder) = try_audio_on answer h.decoder h.player in
    record h { player = player; decoder = decoder }
act (stops delivered) h = record h { player = stop delivered h.player }
act (finishes delivered) h = record h { player = finish delivered h.player }
act shuts_gate h =
    if is_running h.player.control
    then record h { player = shut_gate h.player; interrupting = true }
    else h
act clears h =
    if h.interrupting then record h { player = send_clear h.player; interrupting = false } else h
act (begins now) h = if h.interrupting then h else record h { player = begin_response now h.player }

unfoldable pub acts : List Action → Handle → Handle
unfolding act
acts [] h = h
acts (a ∷ more) h = acts more (act a h)

-- Undisturbed, the two parts are the interruption.
pub interrupt_parts :
    (h : Handle)
    → is_running h.player.control ≡ true
    → (acts (shuts_gate ∷ clears ∷ []) h).player ≡ interrupt_playback h.player
unfolding acts interrupt_playback
interrupt_parts h running = ground arith

-- No `begin_response` among the actions.
abbrev pub is_quiet : List Action → Bool
is_quiet [] = true
is_quiet (begins now ∷ more) = false
is_quiet (a ∷ more) = is_quiet more

abbrev is_past : TryAudio → Bool
is_past (gate_passed bytes) = true
is_past _ = false

-- What one action does behind a shut gate.
record IsStep (h t : Handle) : Type 0 where
  shut : t.player.accepting_audio ≡ false
  taken :
      ((t.player.queue ≡ h.player.queue) × ((t.decoder ≡ h.decoder) ⊎ (is_past t.decoder ≡ false)))
      ⊎ ((bytes : List ℕ) × (h.decoder ≡ gate_passed bytes)
          × (t.player.queue ≡ bytes ∷ h.player.queue)
          × (is_past t.decoder ≡ false))

on-IsStep :
    (answer : TrySend) (decoder : TryAudio) (h : Handle)
    → h.decoder ≡ decoder
    → h.player.accepting_audio ≡ false
    → IsStep h (
        let (player, next) = try_audio_on answer decoder h.player in
        record h { player = player; decoder = next })
unfolding try_audio_on load_gate send_block
on-IsStep answer (running_seen bytes) h e shut = record {
  shut = shut;
  taken = inl (refl, inr (ground arith));
}
on-IsStep sent (gate_passed bytes) h e shut = record {
  shut = shut;
  taken = inr (bytes, e, refl, refl);
}
on-IsStep send_full (gate_passed bytes) h e shut = record {
  shut = shut;
  taken = inl (refl, inr refl);
}
on-IsStep send_closed (gate_passed bytes) h e shut = record {
  shut = shut;
  taken = inl (refl, inr refl);
}
on-IsStep answer block_taken h e shut = record { shut = shut; taken = inl (refl, inr refl) }
on-IsStep answer (answered r) h e shut = record { shut = shut; taken = inl (refl, inr refl) }

act-IsStep :
    (a : Action) (h : Handle)
    → is_quiet (a ∷ []) ≡ true
    → h.player.accepting_audio ≡ false
    → IsStep h (act a h)
unfolding act try_audio stop finish
act-IsStep (tries bytes) h q shut = ground arith
act-IsStep (goes_on answer) h q shut = on-IsStep answer h.decoder h refl shut
act-IsStep (stops delivered) h q shut = ground arith
act-IsStep (finishes delivered) h q shut = ground arith
act-IsStep shuts_gate h q shut = ground arith
act-IsStep clears h q shut = ground arith
act-IsStep (begins now) h q shut = ground arith

is_quiet-cons :
    (a : Action) (more : List Action)
    → is_quiet (a ∷ more) ≡ true
    → (is_quiet (a ∷ []) ≡ true) × (is_quiet more ≡ true)
is_quiet-cons (begins now) more q = ground arith
is_quiet-cons (tries bytes) more q = (refl, q)
is_quiet-cons (goes_on answer) more q = (refl, q)
is_quiet-cons (stops delivered) more q = (refl, q)
is_quiet-cons (finishes delivered) more q = (refl, q)
is_quiet-cons shuts_gate more q = (refl, q)
is_quiet-cons clears more q = (refl, q)

-- Only a block that is past the gate already can come.
AtMostOne : Handle → Handle → Type 0
AtMostOne h t =
    (t.player.queue ≡ h.player.queue)
    ⊎ ((bytes : List ℕ) × (h.decoder ≡ gate_passed bytes)
        × (t.player.queue ≡ bytes ∷ h.player.queue))

acts-none :
    (more : List Action) (h : Handle)
    → is_quiet more ≡ true
    → h.player.accepting_audio ≡ false
    → is_past h.decoder ≡ false
    → (acts more h).player.queue ≡ h.player.queue
unfolding acts
acts-none [] h q shut past = refl
acts-none (a ∷ more) h q shut past =
    let (one, rest) = is_quiet-cons a more q in
    let step = act-IsStep a h one shut in
    elim step.taken [
      | inl (same, inl kept) ↦
          acts-none more (act a h) rest step.shut (ap is_past kept ∙ past) ∙ same
      | inl (same, inr gone) ↦ acts-none more (act a h) rest step.shut gone ∙ same
      | inr (bytes, at, taken, gone) ↦ let absurd = sym (ap is_past at) ∙ past in ground arith
    ]

acts-AtMostOne :
    (more : List Action) (h : Handle)
    → is_quiet more ≡ true
    → h.player.accepting_audio ≡ false
    → AtMostOne h (acts more h)
unfolding acts AtMostOne
acts-AtMostOne [] h q shut = inl refl
acts-AtMostOne (a ∷ more) h q shut =
    let (one, rest) = is_quiet-cons a more q in
    let step = act-IsStep a h one shut in
    elim step.taken [
      | inl (same, inl kept) ↦ elim (acts-AtMostOne more (act a h) rest step.shut) [
        | inl still ↦ inl (still ∙ same)
        | inr (bytes, at, taken) ↦ inr (bytes, sym kept ∙ at, taken ∙ ap (bytes ∷◌) same)
      ]
      | inl (same, inr gone) ↦ inl (acts-none more (act a h) rest step.shut gone ∙ same)
      | inr (bytes, at, taken, gone) ↦
          inr (bytes, at, acts-none more (act a h) rest step.shut gone ∙ taken)
    ]

shuts_gate-shut :
    (h : Handle)
    → is_running h.player.control ≡ true
    → ((act shuts_gate h).player.accepting_audio ≡ false)
      × ((act shuts_gate h).player.queue ≡ h.player.queue)
      × ((act shuts_gate h).decoder ≡ h.decoder)
unfolding act
shuts_gate-shut h running = ground arith

-- Once an interruption has shut the gate of a running player, and until a response begins, the queue
-- takes no block, however the decoder and the event loop are interleaved and whatever the channels
-- answer, but for one: the block with which a call of `try_audio` was past the gate already.
pub interrupt_silences :
    (more : List Action) (h : Handle)
    → is_running h.player.control ≡ true
    → is_quiet more ≡ true
    → ((acts (shuts_gate ∷ more) h).player.queue ≡ h.player.queue)
      ⊎ ((bytes : List ℕ) × (h.decoder ≡ gate_passed bytes)
          × ((acts (shuts_gate ∷ more) h).player.queue ≡ bytes ∷ h.player.queue))
unfolding acts AtMostOne
interrupt_silences more h running q =
    let (shut, queue, decoder) = shuts_gate-shut h running in
    elim (acts-AtMostOne more (act shuts_gate h) q shut) [
      | inl same ↦ inl (same ∙ queue)
      | inr (bytes, at, taken) ↦ inr (bytes, sym decoder ∙ at, taken ∙ ap (bytes ∷◌) queue)
    ]
