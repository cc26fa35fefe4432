-- ===== src/Vector/Moves.antt =====
-- What `memmove` makes of the bytes of a block.
use interview.Base.{
  ℕ, ◌+◌, ◌≤◌, ◌≡◌, refl, ◌∙◌, true, some, List, ◌++◌, length, length-append, append_assoc, take,
  drop, take-append, drop-append, take-append_add, drop-append_add, arith, leb,
}
use interview.Vector.{memmove}

memmove-some :
    (to from n : ℕ) (bytes : List ℕ)
    → to + n ≤ length bytes
    → from + n ≤ length bytes
    → memmove to from n bytes
      ≡ some (take to bytes ++ (take n (drop from bytes) ++ drop (to + n) bytes))
unfolding memmove
memmove-some to from n bytes h k =
    let a : leb (to + n) (length bytes) ≡ true = ground arith in
    let b : leb (from + n) (length bytes) ≡ true = ground arith in rw (a, b) refl

-- closing the gap `es`
pub memmove_down :
    (us es ss rs : List ℕ)
    → memmove (length us) (length us + length es) (length ss) (us ++ (es ++ (ss ++ rs)))
      ≡ some (us ++ (ss ++ drop (length ss) (es ++ (ss ++ rs))))
memmove_down us es ss rs =
    let all = us ++ (es ++ (ss ++ rs)) in
    memmove-some (length us) (length us + length es) (length ss) all
      (omega (
        arith,
        length-append us (es ++ (ss ++ rs)),
        length-append es (ss ++ rs),
        length-append ss rs,
      ))
      (omega (
        arith,
        length-append us (es ++ (ss ++ rs)),
        length-append es (ss ++ rs),
        length-append ss rs,
      ))
    ∙ simp (take-append, drop-append, drop-append_add) refl

-- opening a gap of `n` bytes
pub memmove_up :
    (us ss rs : List ℕ) (n : ℕ)
    → n ≤ length rs
    → memmove (length us + n) (length us) (length ss) (us ++ (ss ++ rs))
      ≡ some (us ++ (take n (ss ++ rs) ++ (ss ++ drop (n + length ss) (ss ++ rs))))
memmove_up us ss rs n room =
    let all = us ++ (ss ++ rs) in
    memmove-some (length us + n) (length us) (length ss) all
      (omega (arith, length-append us (ss ++ rs), length-append ss rs))
      (omega (arith, length-append us (ss ++ rs), length-append ss rs))
    ∙ (let e : length us + n + length ss ≡ length us + (n + length ss) = omega arith in
        simp (e, take-append, drop-append, take-append_add, drop-append_add, append_assoc) refl)
