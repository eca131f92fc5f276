-- ===== src/Upload/Chunks.antt =====
-- The writes of an upload: where each stands, and what they make of the buffer account.
use flux_sdk_go.Common.{
  ℕ, zero, suc, ◌+◌, ◌-◌, ◌%◌, ◌^◌, ◌≤◌, ◌<◌, ◌≡◌, refl, sym, ap, ◌∙◌, inl, inr, List, [], ◌∷◌,
  ◌++◌, Bytes, length, length-append, take, drop, length-take, length-drop, Bool-cases, arith, ltb,
  if◌then◌else◌,
}
use mathlib.Core.List.{append_assoc}
use flux_sdk_go.Upload.{WriteBuffer, chunk_end, chunk_write, instruction_size}

-- The writes of the chunks from `idx` on.
unfoldable pub writes : ℕ → Bytes → ℕ → List WriteBuffer
writes zero program idx = []
writes (suc fuel) program idx =
    let rest = writes fuel program (chunk_end (length program) idx) in
    if ltb idx (length program) then chunk_write program idx ∷ rest else []

-- What the loader makes of a buffer's bytes: the chunk replaces what stands at its offset.
abbrev pub apply_write : WriteBuffer → Bytes → Bytes
apply_write w buffer = take w.offset buffer ++ (w.chunk ++ drop (w.offset + length w.chunk) buffer)

abbrev pub apply_writes : List WriteBuffer → Bytes → Bytes
apply_writes [] buffer = buffer
apply_writes (w ∷ ws) buffer = apply_writes ws (apply_write w buffer)

pub chunk_end-between :
    (size idx : ℕ)
    → idx < size
    → (idx < chunk_end size idx)
      × (chunk_end size idx ≤ size)
      × (chunk_end size idx ≤ idx + instruction_size)
unfolding chunk_end
chunk_end-between size idx lt = ground arith

take-length : (xs ys : Bytes) → take (length xs) (xs ++ ys) ≡ xs
take-length [] ys = refl
take-length (x ∷ xs) ys = ap (λ r. x ∷ r) (take-length xs ys)

take-nil : (n : ℕ) → ◌≡◌ {A = Bytes} (take n []) []
take-nil zero = refl
take-nil (suc n) = refl

take-add : (i k : ℕ) (xs : Bytes) → take (i + k) xs ≡ take i xs ++ take k (drop i xs)
take-add zero k xs = ap (λ n. take n xs) (omega arith)
take-add (suc i) k [] = take-nil (suc i + k) ∙ sym (take-nil k)
take-add (suc i) k (x ∷ xs) =
    let next : suc i + k ≡ suc (i + k) = omega arith in
    ap (λ n. take n (x ∷ xs)) next ∙ ap (λ r. x ∷ r) (take-add i k xs)

take-all : (xs : Bytes) → take (length xs) xs ≡ xs
take-all [] = refl
take-all (x ∷ xs) = ap (λ r. x ∷ r) (take-all xs)

module _ (program : Bytes) (small : length program < 2 ^ 32) where
  -- The buffer is as long as the program and agrees with it up to `idx`.
  abbrev Agrees : ℕ → Bytes → Type 0
  Agrees idx buffer = (length buffer ≡ length program) × (take idx buffer ≡ take idx program)

  apply_chunk-Agrees :
      (idx : ℕ) (buffer : Bytes)
      → idx < length program
      → Agrees idx buffer
      → Agrees (chunk_end (length program) idx) (apply_write (chunk_write program idx) buffer)
  unfolding chunk_write
  apply_chunk-Agrees idx buffer lt (len, same) =
      let next = chunk_end (length program) idx in
      let (above, within, _) = chunk_end-between (length program) idx lt in
      let at_idx : idx % 2 ^ 32 ≡ idx = omega (arith, small) in
      let chunk = take (next - idx) (drop idx program) in
      let chunk_len : length chunk ≡ next - idx =
        omega
          (arith, length-take {0} (next - idx) (drop idx program), length-drop {0} idx program) in
      let before_len : length (take idx buffer) ≡ idx = omega (arith, length-take {0} idx buffer) in
      let after = drop (idx + length chunk) buffer in
      let after_len = length-drop {0} (idx + length chunk) buffer in
      let front : take idx buffer ++ chunk ≡ take next program =
        ap (λ r. r ++ chunk) same
        ∙ sym (take-add idx (next - idx) program)
        ∙ ap (λ n. take n program) (omega arith) in
      let front_len : length (take idx buffer ++ chunk) ≡ next =
        omega (arith, length-append {0} (take idx buffer) chunk) in
      rw at_idx (
        omega (
          arith,
          length-append {0} (take idx buffer) (chunk ++ after),
          length-append {0} chunk after,
        ),
        ap (λ r. take next r) (sym (append_assoc (take idx buffer) chunk after))
            ∙ ap (λ n. take n ((take idx buffer ++ chunk) ++ after)) (sym front_len)
            ∙ take-length (take idx buffer ++ chunk) after
            ∙ front,
      )

  agree_all :
      (buffer : Bytes)
      → take (length program) buffer ≡ take (length program) program
      → length buffer ≡ length program
      → buffer ≡ program
  agree_all buffer same len =
      sym (take-all buffer) ∙ ap (λ n. take n buffer) len ∙ same ∙ take-all program

  apply_writes-from :
      (fuel idx : ℕ) (buffer : Bytes)
      → idx ≤ length program
      → length program - idx ≤ fuel
      → Agrees idx buffer
      → apply_writes (writes fuel program idx) buffer ≡ program
  unfolding writes
  apply_writes-from zero idx buffer le enough (len, same) =
      let ends : idx ≡ length program = omega arith in agree_all buffer (rw (← ends) same) len
  apply_writes-from (suc fuel) idx buffer le enough agrees =
      elim (Bool-cases (ltb idx (length program))) [
        | inl below ↦
            let lt : idx < length program = ground arith in
            let (above, within, _) = chunk_end-between (length program) idx lt in
            rw below (
              apply_writes-from fuel (chunk_end (length program) idx)
                (apply_write (chunk_write program idx) buffer) within (omega arith)
                (apply_chunk-Agrees idx buffer lt agrees))
        | inr done ↦
            let ends : idx ≡ length program = ground arith in
            rw done (agree_all buffer (rw (← ends) agrees.1) agrees.0)
      ]

-- The writes of a program below 4 GiB, done in their order on any buffer of its length, leave the
-- program there.
pub apply_writes_lem :
    (program buffer : Bytes)
    → length program < 2 ^ 32
    → length buffer ≡ length program
    → apply_writes (writes (suc (length program)) program 0) buffer ≡ program
apply_writes_lem program buffer small len =
    apply_writes-from program small (suc (length program)) 0 buffer (omega arith) (omega arith)
      (len, refl)
