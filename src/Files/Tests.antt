-- ===== src/Files/Tests.antt =====
-- A file that is shorter than it says, read into a buffer that is not empty.
use limb_worker.Prelude.{◌≡◌, min, refl, some, Bytes, [], ◌∷◌, length, take}
use limb_worker.Status.{ReturnStatus}
use limb_worker.Files.{File, load_file_content, load_file_content_lem}

abbrev short : File
short = record { told = some 4; readable = 8 ∷ 9 ∷ [] }

abbrev old_buffer : Bytes
old_buffer = 1 ∷ 2 ∷ 3 ∷ []

stale_rest : load_file_content (some short) old_buffer ≡ (8 ∷ 9 ∷ 3 ∷ 0 ∷ [], ReturnStatus.k_ok)
unfolding load_file_content
stale_rest = refl

load_file_content_example :
    let (loaded, ret) = load_file_content (some short) old_buffer in
    (ret ≡ ReturnStatus.k_ok)
    × (length loaded ≡ 4)
    × (take (min 4 (length short.readable)) loaded ≡ take 4 short.readable)
load_file_content_example = load_file_content_lem short 4 old_buffer refl
