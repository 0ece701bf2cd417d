-- ===== src/Dedup/Laws.antt =====
-- srvfb.go, deduper.skip: what is sent of a stream of frames.
use srvfb.Base.{
  ℕ, zero, suc, ◌≡◌, refl, ◌≢◌, ◌↔◌, true, ◌&&◌, List, [], ◌∷◌, arith, ◌==◌, if◌then◌else◌,
  replicate,
}
use srvfb.Dedup.{fresh, Deduper, skip, sum32, deduped}

-- A frame is left out exactly if its hash is that of both of the last two frames sent.
skip_iff :
    (d : Deduper) (b : List ℕ) → ((skip d b).0 ≡ true) ↔ ((sum32 b ≡ d.h1) × (sum32 b ≡ d.h2))
unfolding skip
skip_iff d b = (λ h. ground arith, λ h. ground arith)

settled :
    (d : Deduper) (n : ℕ) (b : List ℕ)
    → sum32 b ≡ d.h1
    → sum32 b ≡ d.h2
    → deduped d (replicate n b) ≡ []
unfolding deduped skip
settled d zero b p q = refl
settled d (suc n) b p q = ground (arith, settled d n b p q)

-- A frame that differs in its hash from the last frame sent is sent twice, however often it
-- repeats after that: a viewer that lags one frame behind gets it.
pub deduped-replicate :
    (d : Deduper) (n : ℕ) (b : List ℕ)
    → sum32 b ≢ d.h2
    → deduped d (replicate (suc (suc n)) b) ≡ b ∷ b ∷ []
unfolding deduped skip
deduped-replicate d n b h =
    ground (arith, settled (record { h1 = sum32 b; h2 = sum32 b }) n b refl refl)

-- The hash of the i-th last frame sent; the zero value of a field stands for a frame not yet sent.
abbrev hash_of_last : List (List ℕ) → ℕ → ℕ
hash_of_last [] i = 0
hash_of_last (b ∷ sent) zero = sum32 b
hash_of_last (b ∷ sent) (suc i) = hash_of_last sent i

-- The frames to send, by the frames sent before, the latest first.
pub unsent : List (List ℕ) → List (List ℕ) → List (List ℕ)
unsent sent [] = []
unsent sent (b ∷ bs) =
    let skipped = unsent sent bs in
    let rest = unsent (b ∷ sent) bs in
    if sum32 b == hash_of_last sent 0 && sum32 b == hash_of_last sent 1 then skipped else b ∷ rest

deduped-unsent_from :
    (sent bs : List (List ℕ)) (d : Deduper)
    → d.h2 ≡ hash_of_last sent 0
    → d.h1 ≡ hash_of_last sent 1
    → deduped d bs ≡ unsent sent bs
unfolding deduped skip unsent
deduped-unsent_from sent [] d p q = refl
deduped-unsent_from sent (b ∷ bs) d p q = ground (
  arith,
  deduped-unsent_from sent bs d p q,
  deduped-unsent_from (b ∷ sent) bs (record { h1 = d.h2; h2 = sum32 b }) refl p,
)

-- The two words of a fresh deduper are enough to leave out exactly the frames whose hash is that of
-- both of the last two frames sent, where a frame not yet sent counts as one with hash 0.
pub deduped-unsent : (bs : List (List ℕ)) → deduped fresh bs ≡ unsent [] bs
deduped-unsent bs = deduped-unsent_from [] bs fresh refl refl

-- A stream that begins with a frame whose hash is 0 sends none of its repetitions, not even the
-- first one.
pub deduped-zero_hash : (n : ℕ) (b : List ℕ) → sum32 b ≡ 0 → deduped fresh (replicate n b) ≡ []
deduped-zero_hash n b h = settled fresh n b h h

pub zero_hash_frame : sum32 (0xcc ∷ 0x24 ∷ 0x31 ∷ 0xc4 ∷ []) ≡ 0
unfolding sum32
zero_hash_frame = refl
