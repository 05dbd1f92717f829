-- ===== src/Monitor/Debounce.antt =====
-- The debounce of `feed_vpm_audio` in xiaoai-agent/src/monitor/kws.rs.
use xiaoai_agent.Prelude.{
  ℕ, ◌+◌, ◌-◌, ◌*◌, ◌^◌, ◌≤◌, ◌<◌, ◌≡◌, refl, ◌⊎◌, inl, inr, List, [], ◌∷◌, ◌++◌, Option, none,
  some, String, arith, ltb, Bool-cases, subst, sym, ◌∙◌, ap,
}
use xiaoai_agent.Monitor.Vpm.{
  RuntimeConfig, Frame, Feed, VpmWakeEvent, feed_start, on_event, feed_frame, feed_vpm_audio,
  drain_first_event, event_debounce, ◌>>=◌,
}

-- Each update comes at least 1200 ms behind the one before it.
abbrev pub Spaced : List (ℕ × String) → Type 0
Spaced [] = Unit {0}
Spaced (u ∷ []) = Unit {0}
Spaced (u ∷ v ∷ rest) = (v.0 + event_debounce ≤ u.0) × Spaced (v ∷ rest)

-- `last_event` is the time of the newest update.
abbrev Newest : ℕ → List (ℕ × String) → Type 0
Newest last [] = Unit {0}
Newest last (u ∷ rest) = u.0 ≡ last

-- The stamps count the frames from 0 and give each its time.
abbrev pub Stamped : ℕ → ℕ → List (ℕ × ℕ) → Type 0
Stamped ms n [] = n ≡ 0
Stamped ms n (stamp ∷ rest) =
    (stamp.1 + 1 ≡ n) × (stamp.0 ≡ stamp.1 * ms) × (stamp.0 < 2 ^ 64) × Stamped ms stamp.1 rest

record IsPaced (ms : ℕ) (s : Feed) : Type 0 where
  spaced : Spaced s.updates
  newest : Newest s.last_event s.updates
  stamped : Stamped ms s.frames s.stamps

on_event-Spaced :
    (now last : ℕ) (keyword : String) (updates : List (ℕ × String))
    → event_debounce ≤ now - last
    → Spaced updates
    → Newest last updates
    → Spaced ((now, keyword) ∷ updates)
on_event-Spaced now last keyword [] le h n = tt
on_event-Spaced now last keyword (u ∷ rest) le h n = (omega (arith, le, n), h)

on_event-IsPaced :
    (ms now : ℕ) (event : Option VpmWakeEvent) (s : Feed)
    → IsPaced ms s
    → IsPaced ms (on_event now event s)
unfolding on_event
on_event-IsPaced ms now none s h = h
on_event-IsPaced ms now (some event) s h =
    elim (Bool-cases (ltb (now - s.last_event) event_debounce)) [
      | inl early ↦ rw early h
      | inr late ↦ rw late (record {
        spaced =
            on_event-Spaced now s.last_event event.keyword s.updates (ground arith) h.spaced
              h.newest;
        newest = refl;
        stamped = h.stamped;
      })
    ]

-- What `vpm_process` has been given, with the frame counted.
stamped : RuntimeConfig → Frame → Feed → Feed
stamped c frame s = record s {
  frames = s.frames + 1;
  statuses = s.statuses ++ frame.commands;
  stamps = (s.frames * c.kws_frame_ms, s.frames) ∷ s.stamps;
}

feed_frame_cases :
    (c : RuntimeConfig) (frame : Frame) (s : Feed)
    → ((s.frames * c.kws_frame_ms < 2 ^ 64)
        × (feed_frame c frame s
            ≡ some (on_event frame.now (drain_first_event frame.events) (stamped c frame s))))
      ⊎ ((2 ^ 64 ≤ s.frames * c.kws_frame_ms) × (feed_frame c frame s ≡ none))
unfolding feed_frame stamped
feed_frame_cases c frame s = elim (Bool-cases (ltb (s.frames * c.kws_frame_ms) (2 ^ 64))) [
  | inl fits ↦ inl (ground arith, rw fits refl)
  | inr over ↦ inr (ground arith, rw over refl)
]

stamped-IsPaced :
    (c : RuntimeConfig) (frame : Frame) (s : Feed)
    → s.frames * c.kws_frame_ms < 2 ^ 64
    → IsPaced c.kws_frame_ms s
    → IsPaced c.kws_frame_ms (stamped c frame s)
unfolding stamped
stamped-IsPaced c frame s fits h = record {
  spaced = h.spaced;
  newest = h.newest;
  stamped = (refl, refl, fits, h.stamped);
}

feed-IsPaced :
    (c : RuntimeConfig) (frames : List Frame) (s : Feed) {t : Feed}
    → IsPaced c.kws_frame_ms s
    → feed_vpm_audio c frames s ≡ some t
    → IsPaced c.kws_frame_ms t
unfolding feed_vpm_audio
feed-IsPaced c [] s {t} h e =
    let same : s ≡ t = ground arith in subst (IsPaced c.kws_frame_ms) same h
feed-IsPaced c (frame ∷ rest) s {t} h e =
    let continue : Option Feed → Option Feed = λ o. o >>= λ u. feed_vpm_audio c rest u in
    elim (feed_frame_cases c frame s) [
      | inl (fits, step) ↦
          feed-IsPaced c rest _
            (on_event-IsPaced c.kws_frame_ms frame.now (drain_first_event frame.events)
              (stamped c frame s) (stamped-IsPaced c frame s fits h))
            (ap continue (sym step) ∙ e)
      | inr (over, step) ↦ let q : none ≡ some t = ap continue (sym step) ∙ e in ground arith
    ]

-- However the frames and the events come, and whatever the clock says, two keywords that reach
-- `on_update` are at least 1200 ms apart, and the frames handed to `vpm_process` are numbered from 0
-- without a gap, each stamped with its number times `kws_frame_ms`, below 2^64.
pub feed_vpm_audio-paced :
    (c : RuntimeConfig) (frames : List Frame) (now : ℕ) (t : Feed)
    → feed_vpm_audio c frames (feed_start now) ≡ some t
    → Spaced t.updates × Stamped c.kws_frame_ms t.frames t.stamps
unfolding feed_start
feed_vpm_audio-paced c frames now t e =
    let h =
      feed-IsPaced c frames (feed_start now) (record { spaced = tt; newest = tt; stamped = refl })
        e in
    (h.spaced, h.stamped)
