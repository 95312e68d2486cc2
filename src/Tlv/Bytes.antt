-- ===== src/Tlv/Bytes.antt =====
-- Bytes in memory, and numbers in network byte order (`htons`, `htonl`, `htobe64` and their
-- inverses, each followed or preceded by a `memcpy`, in qdevices/tlv.c).
use corosync_qdevice.Prelude.{
  ℕ, zero, suc, ◌+◌, ◌*◌, ◌/◌, ◌%◌, ◌<◌, ◌≡◌, refl, ap, ◌∙◌, List, [], ◌∷◌, ◌++◌, length,
  length-append, arith, All,
}

-- Memory from some address on.
abbrev pub Memory : Type 0
Memory = ℕ → ℕ

-- The bytes of a list, and after them whatever is `beyond`.
unfoldable pub memory_of : List ℕ → Memory → Memory
memory_of [] beyond i = beyond i
memory_of (b ∷ bytes) beyond zero = b
memory_of (b ∷ bytes) beyond (suc i) = memory_of bytes beyond i

-- The `n` low bytes of a number, the highest first.
unfoldable pub be_bytes : ℕ → ℕ → List ℕ
be_bytes zero v = []
be_bytes (suc n) v = be_bytes n (v / 256) ++ v % 256 ∷ []

-- The number that `n` bytes from `p` on make.
unfoldable pub read_be : ℕ → Memory → ℕ → ℕ
read_be zero mem p = 0
read_be (suc n) mem p = read_be n mem p * 256 + mem (p + n)

-- How many numbers `n` bytes can tell apart.
abbrev pub limit : ℕ → ℕ
limit zero = 1
limit (suc n) = limit n * 256

pub length-be_bytes : (n v : ℕ) → length (be_bytes n v) ≡ n
unfolding be_bytes
length-be_bytes zero v = refl
length-be_bytes (suc n) v =
    omega (arith, length-append (be_bytes n (v / 256)) (v % 256 ∷ []), length-be_bytes n (v / 256))

pub memory_of-append :
    (xs ys : List ℕ) (beyond : Memory) (i j : ℕ)
    → j ≡ length xs + i
    → memory_of (xs ++ ys) beyond j ≡ memory_of ys beyond i
unfolding memory_of
memory_of-append [] ys beyond i j e = ap (memory_of ys beyond) (omega arith)
memory_of-append (x ∷ xs) ys beyond i zero e = omega arith
memory_of-append (x ∷ xs) ys beyond i (suc j) e = memory_of-append xs ys beyond i j (omega arith)

pub memory_of-before :
    (xs ys : List ℕ) (beyond other : Memory) (i : ℕ)
    → i < length xs
    → memory_of (xs ++ ys) beyond i ≡ memory_of xs other i
unfolding memory_of
memory_of-before [] ys beyond other i h = omega arith
memory_of-before (x ∷ xs) ys beyond other zero h = refl
memory_of-before (x ∷ xs) ys beyond other (suc i) h =
    memory_of-before xs ys beyond other i (omega arith)

-- Memories that agree on the bytes read give the same number.
pub read_be-agree :
    (n : ℕ) (mem other : Memory) (p q : ℕ)
    → ((i : ℕ) → i < n → mem (p + i) ≡ other (q + i))
    → read_be n mem p ≡ read_be n other q
unfolding read_be
read_be-agree zero mem other p q h = refl
read_be-agree (suc n) mem other p q h =
    omega (arith, read_be-agree n mem other p q (λ i b. h i (omega arith)), h n (omega arith))

pub read_be-be_bytes :
    (n v : ℕ) (beyond : Memory) → v < limit n → read_be n (memory_of (be_bytes n v) beyond) 0 ≡ v
unfolding read_be be_bytes memory_of
read_be-be_bytes zero v beyond h = omega arith
read_be-be_bytes (suc n) v beyond h =
    let high = be_bytes n (v / 256) in
    let top : read_be n (memory_of (high ++ v % 256 ∷ []) beyond) 0 ≡ v / 256 =
      read_be-agree n _ (memory_of high beyond) 0 0 (λ i b.
        memory_of-before high _ beyond beyond _ (omega (arith, length-be_bytes n (v / 256))))
      ∙ read_be-be_bytes n (v / 256) beyond (omega arith) in
    let low : memory_of (high ++ v % 256 ∷ []) beyond (0 + n) ≡ v % 256 =
      memory_of-append high _ beyond 0 (0 + n) (omega (arith, length-be_bytes n (v / 256))) in
    omega (arith, top, low)

-- Memory holds bytes if the list does, and what stands after it.
pub memory_of-small :
    (bytes : List ℕ) (beyond : Memory)
    → All (λ b. b < 256) bytes
    → ((i : ℕ) → beyond i < 256)
    → (i : ℕ) → memory_of bytes beyond i < 256
unfolding memory_of
memory_of-small [] beyond h after i = after i
memory_of-small (b ∷ bytes) beyond h after zero = h.0
memory_of-small (b ∷ bytes) beyond h after (suc i) = memory_of-small bytes beyond h.1 after i
