-- ===== src/Dedup/Tests.antt =====
-- srvfb.go, deduper: runs.
use srvfb.Base.{◌≡◌, refl, ◌≢◌, [], ◌∷◌, arith, replicate}
use srvfb.Dedup.{skip, fresh, sum32, deduped}
use srvfb.Dedup.Laws.{unsent, deduped-unsent, deduped-replicate, deduped-zero_hash, zero_hash_frame}

sum32_text : sum32 (b'a' ∷ []) ≡ 0xe40c292c
unfolding sum32
sum32_text = refl

-- Of four equal frames two are sent.
deduped_run :
    deduped fresh ((1 ∷ []) ∷ (1 ∷ []) ∷ (1 ∷ []) ∷ (2 ∷ []) ∷ [])
    ≡ (1 ∷ []) ∷ (1 ∷ []) ∷ (2 ∷ []) ∷ []
unfolding deduped skip sum32
deduped_run = refl

deduped-unsent_example :
    deduped fresh ((7 ∷ []) ∷ (7 ∷ []) ∷ (7 ∷ []) ∷ [])
    ≡ unsent [] ((7 ∷ []) ∷ (7 ∷ []) ∷ (7 ∷ []) ∷ [])
deduped-unsent_example = deduped-unsent ((7 ∷ []) ∷ (7 ∷ []) ∷ (7 ∷ []) ∷ [])

sum32_nonzero : sum32 (1 ∷ 2 ∷ []) ≢ 0
unfolding sum32
sum32_nonzero = omega arith

deduped-replicate_example :
    deduped fresh (replicate 5 (1 ∷ 2 ∷ [])) ≡ (1 ∷ 2 ∷ []) ∷ (1 ∷ 2 ∷ []) ∷ []
deduped-replicate_example = deduped-replicate fresh 3 (1 ∷ 2 ∷ []) sum32_nonzero

deduped-zero_hash_example : deduped fresh (replicate 3 (0xcc ∷ 0x24 ∷ 0x31 ∷ 0xc4 ∷ [])) ≡ []
deduped-zero_hash_example = deduped-zero_hash 3 (0xcc ∷ 0x24 ∷ 0x31 ∷ 0xc4 ∷ []) zero_hash_frame
