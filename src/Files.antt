-- ===== src/Files.antt =====
-- src/internal/utils/files.cpp: `loadFileContent`, of which processors/rmbg/rmbg.cpp has a copy.
mod Tests
use limb_worker.Prelude.{
  ℕ, zero, suc, ◌+◌, ◌-◌, ◌≤◌, ◌≡◌, refl, ap, sym, ◌∙◌, min, Option, none, some, Bytes, List, [],
  ◌∷◌, ◌++◌, arith, length, take, drop, replicate, length-take, length-drop, length-append,
  length-replicate, ◌==◌, if◌then◌else◌,
}
use limb_worker.Status.{ReturnStatus}

-- A file that opens: what `tellg` says at its end, `none` for -1, and the bytes that can be read.
pub record File : Type 0 where
  pub told : Option ℕ
  pub readable : Bytes

-- `buffer.resize(size)`.
abbrev pub resize : ℕ → Bytes → Bytes
resize size buffer = take size (buffer ++ replicate (size - length buffer) 0)

-- `file.read`, which leaves what it does not reach; nothing looks at its result.
abbrev pub read_into : Bytes → Bytes → Bytes
read_into readable buffer =
    take (length buffer) readable ++ drop (length (take (length buffer) readable)) buffer

-- `none` is a file that does not open.
unfoldable pub load_file_content : Option File → Bytes → Bytes × ReturnStatus
load_file_content none buffer = (buffer, ReturnStatus.k_not_found)
load_file_content (some file) buffer = elim file.told [
  | none ↦ (buffer, ReturnStatus.k_aborted)
  | some size ↦
      if size == 0
      then ([], ReturnStatus.k_ok)
      else (read_into file.readable (resize size buffer), ReturnStatus.k_ok)
]

length-resize : (size : ℕ) (buffer : Bytes) → length (resize size buffer) ≡ size
length-resize size buffer =
    length-take size (buffer ++ replicate (size - length buffer) 0)
    ∙ omega (
      arith,
      length-append buffer (replicate (size - length buffer) 0),
      length-replicate {A = ℕ} (size - length buffer) 0,
    )

length-read_into : (readable buffer : Bytes) → length (read_into readable buffer) ≡ length buffer
length-read_into readable buffer = omega (
  arith,
  length-append (take (length buffer) readable)
      (drop (length (take (length buffer) readable)) buffer),
  length-drop (length (take (length buffer) readable)) buffer,
  length-take (length buffer) readable,
)

-- What is behind a prefix does not matter to it.
take-append : (xs ys : Bytes) → take (length xs) (xs ++ ys) ≡ xs
take-append [] ys = refl
take-append (x ∷ xs) ys = ap (◌∷◌ x) (take-append xs ys)

load_file_content-opens :
    (file : File) (size : ℕ) (buffer : Bytes)
    → file.told ≡ some size
    → load_file_content (some file) buffer
      ≡ (read_into file.readable (resize size buffer), ReturnStatus.k_ok)
unfolding load_file_content
load_file_content-opens file zero buffer e = ground (arith, e)
load_file_content-opens file (suc n) buffer e = ground (arith, e)

-- For a file that opens and tells a size, whatever the buffer held: the result is kOk and the buffer
-- has that many bytes, of which the first are those that were read, as many as there are.
pub load_file_content_lem :
    (file : File) (size : ℕ) (buffer : Bytes)
    → file.told ≡ some size
    → let (loaded, ret) = load_file_content (some file) buffer in
      (ret ≡ ReturnStatus.k_ok)
      × (length loaded ≡ size)
      × (take (min size (length file.readable)) loaded ≡ take size file.readable)
load_file_content_lem file size buffer e =
    let room = length-resize size buffer in
    let count : length (take (length (resize size buffer)) file.readable)
        ≡ min size (length file.readable) =
      length-take (length (resize size buffer)) file.readable
      ∙ ap (λ t. min t (length file.readable)) room in
    rw (load_file_content-opens file size buffer e) (
      refl,
      length-read_into file.readable (resize size buffer) ∙ room,
      ap (λ t. take t (read_into file.readable (resize size buffer))) (sym count)
          ∙ take-append (take (length (resize size buffer)) file.readable) _
          ∙ ap (λ t. take t file.readable) room,
    )
