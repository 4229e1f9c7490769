-- ===== src/WriteLog/Tracking.antt =====
-- The memory writes that the tracker (personal_plugins/panda/plugins/writetracker) logs, replayed.
use panda_scratchpad.Base.{
  ℕ, ◌+◌, ◌-◌, ◌≤◌, ◌<◌, ◌≡◌, ◌≢◌, refl, ◌∙◌, sym, Bool, ◌&&◌, List, [], ◌∷◌, ◌++◌, leb, ltb,
  if◌then◌else◌, arith, length, append_assoc, append-nil, Bool-cases, inl, inr,
}
use panda_scratchpad.Base.Words.{Bytes, u64}
use panda_scratchpad.Base.Outcome.{ok}
use panda_scratchpad.WriteLog.{
  Event, write, log_output, Tracker, mem_write_callback, Vars, replay_loop,
}
use panda_scratchpad.WriteLog.Records.{IsWord, input_of}
use panda_scratchpad.WriteLog.Replay.{log_file, AllLogged, recover, IsMemory, replay_loop-log_file}

-- A write of the guest to its physical memory.
pub record Store : Type 0 where
  pub pc : ℕ
  pub pa : ℕ
  pub bytes : Bytes

-- The fields of a store fit into words.
abbrev pub AllStorable : List Store → Type 0
AllStorable [] = Unit {0}
AllStorable (s ∷ stores) =
    (IsWord s.pc × IsWord s.pa × IsWord (length s.bytes)) × AllStorable stores

-- The callback for one store after the other.
unfoldable pub track : List Store → Tracker → Tracker
unfolding mem_write_callback
track [] t = t
track (s ∷ stores) t = track stores (mem_write_callback s.pc s.pa s.bytes t)

abbrev inside : (start end : ℕ) → Store → Bool
inside start end s = leb start s.pa && ltb s.pa end

-- The events of the stores in a range.
unfoldable pub tracked : (start end : ℕ) → List Store → List Event
tracked start end [] = []
tracked start end (s ∷ stores) =
    let rest = tracked start end stores in
    if inside start end s then write s.pc (s.pa - start) s.bytes ∷ rest else rest

track_output :
    (stores : List Store) (start end : ℕ) (out : Bytes)
    → (track stores (record { range_start = start; range_end = end; output = out })).output
      ≡ out ++ log_file (tracked start end stores)
unfolding track mem_write_callback tracked log_file
track_output [] start end out = sym (append-nil out)
track_output (s ∷ stores) start end out = elim (Bool-cases (inside start end s)) [
  | inl q ↦
      rw (track, q)
        (track_output stores start end (out ++ log_output (write s.pc (s.pa - start) s.bytes))
          ∙ append_assoc out (log_output (write s.pc (s.pa - start) s.bytes))
              (log_file (tracked start end stores)))
  | inr q ↦ rw (track, q) (track_output stores start end out)
]

tracked-AllLogged :
    (stores : List Store) (start end : ℕ)
    → AllStorable stores
    → AllLogged (tracked start end stores)
unfolding tracked
tracked-AllLogged [] start end h = tt
tracked-AllLogged (s ∷ stores) start end h = elim (Bool-cases (inside start end s)) [
  | inl q ↦
      rw (tracked, q) ((h.0.0, omega (arith, h.0.1), h.0.2), tracked-AllLogged stores start end h.1)
  | inr q ↦ rw (tracked, q) (tracked-AllLogged stores start end h.1)
]

module _ {W : Type 0} (physical_memory_rw : ℕ → Bytes → W → W) (base : ℕ) where
  -- The stores of the range, each at the base plus its place in the range.
  unfoldable pub copy : (start end : ℕ) → List Store → W → W
  copy start end [] w = w
  copy start end (s ∷ stores) w =
      copy start end stores (
        if inside start end s
        then physical_memory_rw (u64 (base + (s.pa - start))) s.bytes w
        else w)

  recover-tracked :
      (stores : List Store) (start end : ℕ) (w : W)
      → recover physical_memory_rw base (tracked start end stores) w ≡ copy start end stores w
  unfolding recover tracked copy
  recover-tracked [] start end w = refl
  recover-tracked (s ∷ stores) start end w = elim (Bool-cases (inside start end s)) [
    | inl q ↦ rw q (recover-tracked stores start end _)
    | inr q ↦ rw q (recover-tracked stores start end w)
  ]

  replay_events :
      (fuel : ℕ) (v : Vars) (es : List Event) (w : W)
      → IsMemory physical_memory_rw base
      → length es + 1 < fuel
      → es ≢ []
      → AllLogged es
      → replay_loop physical_memory_rw base fuel v (input_of (log_file es)) w
        ≡ ok (recover physical_memory_rw base es w)
  replay_events fuel v [] w m h n l = absurd (n refl)
  replay_events fuel v (e ∷ es) w m h n l =
      replay_loop-log_file physical_memory_rw base fuel v e es w m (omega arith) l.0 l.1

  length-tracked :
      (start end : ℕ) (stores : List Store) → length (tracked start end stores) ≤ length stores
  unfolding tracked
  length-tracked start end [] = omega arith
  length-tracked start end (s ∷ stores) = ground (arith, length-tracked start end stores)

  -- A tracker with an empty file logs a list of stores whose fields fit into words. If one of them is
  -- in its range, and a second write of the same bytes to the same place changes nothing, then the
  -- replayer, whatever its variables hold at first, ends within two rounds more than stores, and has
  -- written just the stores of the range, in order, each at its base plus the place in the range.
  pub replay_loop-track :
      (v : Vars) (start end : ℕ) (stores : List Store) (w : W)
      → IsMemory physical_memory_rw base
      → AllStorable stores
      → tracked start end stores ≢ []
      → replay_loop physical_memory_rw base
          (length stores + 3)
          v
          (input_of
            (track stores (record { range_start = start; range_end = end; output = [] })).output)
          w
        ≡ ok (copy start end stores w)
  replay_loop-track v start end stores w m h n =
      rw (track_output stores start end [], ← recover-tracked stores start end w)
        (replay_events (length stores + 3) v (tracked start end stores) w m
          (omega (arith, length-tracked start end stores)) n (tracked-AllLogged stores start end h))
