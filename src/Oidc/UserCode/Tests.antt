-- ===== src/Oidc/UserCode/Tests.antt =====
-- The sampler of user codes on concrete reads.
use tempogate.Common.{ℕ, ◌≡◌, refl, some, List, [], ◌∷◌, any}
use tempogate.Oidc.UserCode.{Reads, sample_code, random_user_code}
use tempogate.Oidc.UserCode.Sampled.{IsUserCode, random_user_code_ends}

-- Two of the bytes are rejected.
abbrev reads : Reads
reads k = some (0 ∷ 23 ∷ 255 ∷ 24 ∷ 240 ∷ [])

drawn : random_user_code 8 reads ≡ some (b'B' ∷ b'9' ∷ b'B' ∷ b'B' ∷ b'9' ∷ b'B' ∷ b'B' ∷ b'9' ∷ [])
unfolding sample_code
drawn = refl

random_user_code_ends_example :
    (code : List ℕ) × (random_user_code 8 reads ≡ some code) × IsUserCode code
unfolding any
random_user_code_ends_example =
    random_user_code_ends reads (λ k. (0 ∷ 23 ∷ 255 ∷ 24 ∷ 240 ∷ [], refl, refl))
