-- ===== src/Heci/Write/Fragments.antt =====
-- What `write_msg` of src/heci/mod.rs puts into the ring.
use amt_uefi_boot_app.Heci.Device.{HeciContext, ring_words}
use amt_uefi_boot_app.Heci.Write.{dwords}
use amt_uefi_boot_app.Heci.Regs.{msg_hdr}
use amt_uefi_boot_app.Prelude.{
  ℕ, ◌≤◌, ◌<◌, Bool, false, ◌&&◌, List, [], ◌∷◌, ◌++◌, ◌≡◌, length, leb, ◌⊎◌, drop,
}
use amt_uefi_boot_app.Outcome.{Outcome, ok, err, panics, waits, timeout}

-- The words of a message, in fragments of 1 to 1012 bytes: a header with the fragment's length and,
-- on the last fragment, the caller's flag, and the payload in words.
pub data Fragments (me host : ℕ) (complete : Bool) : List ℕ → List ℕ → Type 0 where
  finished : Fragments me host complete [] []
  fragment :
      (bytes rest words : List ℕ)
      → 0 < length bytes
      → length bytes ≤ 1012
      → Fragments me host complete words rest
      → Fragments me host complete
          (msg_hdr me host (length bytes) (leb (length rest) 0 && complete)
            ∷ (dwords bytes ++ words))
          (bytes ++ rest)

-- A message of which the end has not been sent: what was sent never has the flag.
abbrev pub IsCut : ℕ → ℕ → List ℕ → List ℕ → Type 0
IsCut me host bytes words =
    (sent : List ℕ) × (unsent : List ℕ) × (0 < length unsent)
    × (bytes ≡ sent ++ unsent)
    × Fragments me host false words sent

-- The words that a call has put into the ring, by its outcome.
abbrev pub IsWritten : ℕ → ℕ → Bool → List ℕ → List ℕ → Outcome (Unit {0}) → Type 0
IsWritten me host complete bytes words (ok a) = Fragments me host complete words bytes
IsWritten me host complete bytes words (err e) = (e ≡ timeout) × IsCut me host bytes words
IsWritten me host complete bytes words panics = IsCut me host bytes words
IsWritten me host complete bytes words waits = ⊥

-- `wait_slots` writes nothing, and finds no room or room for `needed` words.
abbrev IsRoom : ℕ → Outcome ℕ → Type 0
IsRoom needed (ok n) = (n ≡ 0) ⊎ ((needed ≤ n) × (n ≤ 254))
IsRoom needed (err e) = ⊥
IsRoom needed panics = Unit
IsRoom needed waits = ⊥

module _ (me host : ℕ) (data_bytes : List ℕ) (complete : Bool) where
  -- What a call has done that began with `sent` bytes sent already.
  abbrev IsSent : ℕ → HeciContext → Outcome (Unit {0}) × HeciContext → Type 0
  IsSent sent s (o, t) =
      (words : List ℕ) × (ring_words t.writes ≡ ring_words s.writes ++ words)
      × IsWritten me host complete (drop sent data_bytes) words o
