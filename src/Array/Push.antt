-- ===== src/Array/Push.antt =====
-- `yf_array_push` and `yf_array_push_n`: room for the new elements, and the old ones kept.
use yifei.Prelude.{
  ℕ, ◌+◌, ◌*◌, ◌%◌, ◌^◌, ◌≤◌, ◌<◌, ◌≡◌, refl, sym, ap, ◌∙◌, arith, inl, inr, true, List, ◌&&◌, ltb,
  leb, ◌==◌, if◌then◌else◌, Bool-cases, ltb→ge, leb→le, leb→gt,
}
use native.Mathlib.Nat.{mod-eq_of_lt, mul_comm, mul-le-mul_left}
use yifei.MemPool.{Pool, palloc}
use yifei.Array.{Array, last_of, end_of, bytes_of, array_push_n}
use yifei.Array.Room.{Pushes, stays-Grown, extends-Grown, move-Pushes, both}

-- The room that `yf_array_push_n` asks for.
abbrev pub room_for : ℕ → Array → ℕ
room_for n array = 2 * (if leb array.nalloc n then n else array.nalloc) % 2 ^ 32

room_for-enough :
    (n : ℕ) (array : Array)
    → n < 2 ^ 31
    → array.nalloc < 2 ^ 31
    → array.nalloc + n ≤ room_for n array
room_for-enough n array f g = elim (Bool-cases (leb array.nalloc n)) [
  | inl e ↦ rw e (omega (arith, leb→le array.nalloc n e))
  | inr e ↦ rw e (omega (arith, leb→gt array.nalloc n e))
]

-- For an array with at most as many elements as it has room for, and less than 2^31 of the old and
-- of the new elements, where twice the greater of the room and the number of new elements takes
-- less than 2^64 bytes, `yf_array_push_n` counts `n` elements more, gives the address behind the old
-- elements, and keeps the bytes of these. The memory for the new elements is the old room; or the
-- old room was the last piece of the first block and its end, moved within the block, is the end of
-- the new room; or `yf_palloc` gave the array's new place for exactly the bytes of the new room. Or
-- else `yf_palloc` gives nothing for that room, and the push fails and leaves the array and memory.
pub array_push_n-Pushes :
    (n : ℕ) (array : Array) (memory : ℕ → ℕ) (answers : List ℕ) (pool : Pool)
    → array.nelts ≤ array.nalloc
    → array.nalloc < 2 ^ 31
    → n < 2 ^ 31
    → array.size * room_for n array < 2 ^ 64
    → Pushes n
        (room_for n array)
        array
        memory
        answers
        pool
        (array_push_n n array memory answers pool)
unfolding array_push_n
array_push_n-Pushes n array memory answers pool full few less small =
    let few' : array.nelts + n < 2 ^ 32 = omega arith in
    let total : (array.nelts + n) % 2 ^ 32 ≡ array.nelts + n = mod-eq_of_lt few' in
    let enough = room_for-enough n array less few in
    let within : (k : ℕ) → k ≤ room_for n array → array.size * k < 2 ^ 64 =
      λ k h. omega (arith, small, mul-le-mul_left array.size h) in
    let used = within array.nelts (omega arith) in
    let whole : bytes_of array.size array.nalloc ≡ array.size * array.nalloc =
      mod-eq_of_lt (within array.nalloc (omega arith)) in
    let added : bytes_of n array.size ≡ array.size * n =
      ap (λ m. m % 2 ^ 64) (mul_comm n array.size) ∙ mod-eq_of_lt (within n (omega arith)) in
    let asked : bytes_of (room_for n array) array.size ≡ array.size * room_for n array =
      ap (λ m. m % 2 ^ 64) (mul_comm (room_for n array) array.size) ∙ mod-eq_of_lt small in
    let kept : bytes_of array.nelts array.size ≡ array.size * array.nelts =
      ap (λ m. m % 2 ^ 64) (mul_comm array.nelts array.size) ∙ mod-eq_of_lt used in
    let last = last_of pool.blocks in
    rw (whole, added)
      (elim (Bool-cases (ltb array.nalloc ((array.nelts + n) % 2 ^ 32))) [
        | inr e ↦ rw e (
            inl (
              stays-Grown n array memory few' used answers pool
                (omega (arith, total, ltb→ge array.nalloc ((array.nelts + n) % 2 ^ 32) e))))
        | inl e ↦
            elim (Bool-cases (
              (array.elts + array.size * array.nalloc == last)
              && leb (last + array.size * n) (end_of pool.blocks))) [
                | inl b ↦
                    let t = both _ _ _ _ b in
                    rw (e, b)
                      (inl (
                        extends-Grown n array memory few' used answers pool
                          ((array.nalloc + n) % 2 ^ 32) (array.size * n) (omega arith) refl full t.0
                          t.1))
                | inr b ↦
                    rw (e, b)
                      (move-Pushes n array memory few' used answers pool (room_for n array)
                        (bytes_of array.nelts array.size)
                        (palloc true (bytes_of (room_for n array) array.size) answers pool)
                        (ap (λ m. palloc true m answers pool) (sym asked)) (omega arith) kept)
              ]
      ])
