-- ===== src/HashFunctions.antt =====
-- supertel/lib/hash-functions.c: Pearson hashing. Data are lists of bytes. A `hash_t` is its pattern of
-- 64 bits, and `none` is a read behind the data.
pub mod Permutation
pub mod Bytes
use Prim.Native.Nat.{bit_and, bit_or, bit_xor}
use interview.Base.{ℕ, zero, suc, ◌+◌, ◌-◌, ◌*◌, ◌/◌, ◌%◌, ◌^◌, Option, none, some, List, [], ◌∷◌}

abbrev pub pearson_permutation_table : List ℕ
pearson_permutation_table =
    98 ∷ 6 ∷ 85 ∷ 150 ∷ 36 ∷ 23 ∷ 112 ∷ 164 ∷ 135 ∷ 207 ∷ 169 ∷ 5 ∷ 26 ∷ 64 ∷ 165 ∷ 219 ∷ 61 ∷ 20
    ∷ 68 ∷ 89 ∷ 130 ∷ 63 ∷ 52 ∷ 102 ∷ 24 ∷ 229 ∷ 132 ∷ 245 ∷ 80 ∷ 216 ∷ 195 ∷ 115 ∷ 90 ∷ 168 ∷ 156
    ∷ 203 ∷ 177 ∷ 120 ∷ 2 ∷ 190 ∷ 188 ∷ 7 ∷ 100 ∷ 185 ∷ 174 ∷ 243 ∷ 162 ∷ 10 ∷ 237 ∷ 18 ∷ 253 ∷ 225
    ∷ 8 ∷ 208 ∷ 172 ∷ 244 ∷ 255 ∷ 126 ∷ 101 ∷ 79 ∷ 145 ∷ 235 ∷ 228 ∷ 121 ∷ 123 ∷ 251 ∷ 67 ∷ 250
    ∷ 161 ∷ 0 ∷ 107 ∷ 97 ∷ 241 ∷ 111 ∷ 181 ∷ 82 ∷ 249 ∷ 33 ∷ 69 ∷ 55 ∷ 59 ∷ 153 ∷ 29 ∷ 9 ∷ 213 ∷ 167
    ∷ 84 ∷ 93 ∷ 30 ∷ 46 ∷ 94 ∷ 75 ∷ 151 ∷ 114 ∷ 73 ∷ 222 ∷ 197 ∷ 96 ∷ 210 ∷ 45 ∷ 16 ∷ 227 ∷ 248
    ∷ 202 ∷ 51 ∷ 152 ∷ 252 ∷ 125 ∷ 81 ∷ 206 ∷ 215 ∷ 186 ∷ 39 ∷ 158 ∷ 178 ∷ 187 ∷ 131 ∷ 136 ∷ 1 ∷ 49
    ∷ 50 ∷ 17 ∷ 141 ∷ 91 ∷ 47 ∷ 129 ∷ 60 ∷ 99 ∷ 154 ∷ 35 ∷ 86 ∷ 171 ∷ 105 ∷ 34 ∷ 38 ∷ 200 ∷ 147 ∷ 58
    ∷ 77 ∷ 118 ∷ 173 ∷ 246 ∷ 76 ∷ 254 ∷ 133 ∷ 232 ∷ 196 ∷ 144 ∷ 198 ∷ 124 ∷ 53 ∷ 4 ∷ 108 ∷ 74 ∷ 223
    ∷ 234 ∷ 134 ∷ 230 ∷ 157 ∷ 139 ∷ 189 ∷ 205 ∷ 199 ∷ 128 ∷ 176 ∷ 19 ∷ 211 ∷ 236 ∷ 127 ∷ 192 ∷ 231
    ∷ 70 ∷ 233 ∷ 88 ∷ 146 ∷ 44 ∷ 183 ∷ 201 ∷ 22 ∷ 83 ∷ 13 ∷ 214 ∷ 116 ∷ 109 ∷ 159 ∷ 32 ∷ 95 ∷ 226
    ∷ 140 ∷ 220 ∷ 57 ∷ 12 ∷ 221 ∷ 31 ∷ 209 ∷ 182 ∷ 143 ∷ 92 ∷ 149 ∷ 184 ∷ 148 ∷ 62 ∷ 113 ∷ 65 ∷ 37
    ∷ 27 ∷ 106 ∷ 166 ∷ 3 ∷ 14 ∷ 204 ∷ 72 ∷ 21 ∷ 41 ∷ 56 ∷ 66 ∷ 28 ∷ 193 ∷ 40 ∷ 217 ∷ 25 ∷ 54 ∷ 179
    ∷ 117 ∷ 238 ∷ 87 ∷ 240 ∷ 155 ∷ 180 ∷ 170 ∷ 242 ∷ 212 ∷ 191 ∷ 163 ∷ 78 ∷ 218 ∷ 137 ∷ 194 ∷ 175
    ∷ 110 ∷ 43 ∷ 119 ∷ 224 ∷ 71 ∷ 122 ∷ 142 ∷ 42 ∷ 160 ∷ 104 ∷ 48 ∷ 247 ∷ 103 ∷ 15 ∷ 11 ∷ 138 ∷ 239
    ∷ []

-- 0 out of range, where no index of the functions below is for data that are bytes
abbrev pub element_at : List ℕ → ℕ → ℕ
element_at [] i = 0
element_at (x ∷ xs) zero = x
element_at (x ∷ xs) (suc i) = element_at xs i

abbrev pub permuted : ℕ → ℕ
permuted i = element_at pearson_permutation_table i

-- the inner loop, over the bytes behind the first
unfoldable pub mix : ℕ → List ℕ → ℕ
mix h [] = h
mix h (x ∷ xs) = mix (permuted (bit_xor h x)) xs

-- the byte of the hash with index `j`, of data with the first byte `x`
unfoldable pub hash_byte : ℕ → ℕ → List ℕ → ℕ
hash_byte j x xs = mix (permuted (bit_and (x + j) 0xff)) xs

-- `rounds` more rounds of the outer loop, from the index `j`
unfoldable pub hash_loop : (rounds j : ℕ) → ℕ → List ℕ → ℕ → ℕ
hash_loop zero j x xs hash = hash
hash_loop (suc rounds) j x xs hash =
    hash_loop rounds (j + 1) x xs (bit_or hash (hash_byte j x xs * 2 ^ (j * 2 ^ 3) % 2 ^ 64))

unfoldable pub hash_pearson : List ℕ → Option ℕ
hash_pearson [] = none
hash_pearson (x ∷ xs) = some (hash_loop 8 0 x xs 0)

-- the mask moves by 3 bits a round, where the shift moves by 8
unfoldable pub update_loop : (rounds j mask : ℕ) → List ℕ → ℕ → ℕ
update_loop zero j mask xs hash = hash
update_loop (suc rounds) j mask xs hash =
    let h = mix (bit_and hash mask / 2 ^ (j * 2 ^ 3)) xs in
    update_loop rounds (j + 1) (mask * 2 ^ 3 % 2 ^ 64) xs
      (bit_or (bit_and hash (2 ^ 64 - 1 - mask)) h)

-- the first byte is not read
unfoldable pub hash_update_pearson : ℕ → List ℕ → ℕ
hash_update_pearson hash [] = update_loop 8 0 0xff [] hash
hash_update_pearson hash (x ∷ xs) = update_loop 8 0 0xff xs hash
