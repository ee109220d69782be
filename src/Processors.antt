-- ===== src/Processors.antt =====
-- The processor modules: processors/.
pub mod Transfers
pub mod Realesrgan
pub mod Rmbg
pub mod Loopback
mod Tests
use limb_worker.Prelude.{ℕ, ◌*◌, ◌^◌, Bool, ◌&&◌, ltb}

-- A product of an image's sizes in `int`, which must not overflow.
abbrev pub int_fits : ℕ → ℕ → ℕ → Bool
int_fits w h c = ltb (w * h) (2 ^ 31) && ltb (w * h * c) (2 ^ 31)
