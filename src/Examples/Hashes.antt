-- ===== src/Examples/Hashes.antt =====
-- Hashes of supertel/lib/hash-functions.c.
use interview.Base.{◌≡◌, ◌≢◌, refl, [], ◌∷◌, arith}
use interview.HashFunctions.{hash_pearson, hash_update_pearson}
use interview.HashFunctions.Bytes.{hash_pearson-differs}

hash_pearson-differs_example : hash_pearson (7 ∷ 1 ∷ 9 ∷ []) ≢ hash_pearson (7 ∷ 2 ∷ 9 ∷ [])
hash_pearson-differs_example =
    hash_pearson-differs (7 ∷ []) 1 2 (9 ∷ []) (omega arith, tt) (omega arith) (omega arith)
      (omega arith, tt) (ground arith)

-- an update drops bits of the hash, and does not see the byte
update_one : hash_update_pearson 0x1234 (7 ∷ []) ≡ hash_update_pearson 0x1234 (9 ∷ [])
unfolding hash_update_pearson
update_one = refl
