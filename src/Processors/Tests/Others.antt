-- ===== src/Processors/Tests/Others.antt =====
-- Images and containers of rmbg and loopback.
use limb_worker.Prelude.{
  ℕ, ◌≡◌, refl, Bool, true, false, not, ◌&&◌, some, none, [], ◌∷◌, ◌++◌, if◌then◌else◌, Outcome,
  arith,
}
use limb_worker.Status.{ReturnStatus}
use limb_worker.Files.{File}
use limb_worker.Service.Process.{ImageInfo}
use limb_worker.Processors.Transfers.{held}
use limb_worker.Processors.Rmbg.{
  Resource, Setting, OptionCalls, number, Input, Output, PixelType, Gpu, Calls, fresh_container,
  init, deinit, delete_container, try_acquire_processor, construct, process_image,
}
use limb_worker.Processors.Rmbg.Loading.{is_readable, configures, init_lem}
use limb_worker.Processors.Rmbg.Image.{WithinImage, process_image-WithinImage}
use limb_worker.Processors.Loopback.{process_image as copy_image, process_image-copies}

abbrev model : File
model = record { told = some 2; readable = 1 ∷ 2 ∷ [] }

-- CUDA is offered, and its library does not load.
abbrev without_cuda : Setting → Bool
without_cuda Setting.logs_warnings = true
without_cuda Setting.cuda_provider = false
without_cuda Setting.no_mem_pattern = true
without_cuda Setting.all_optimizations = true

abbrev offers_cuda : OptionCalls
offers_cuda = record { returns = without_cuda; cuda_supported = some true }

init_example :
    let (c, events, ret) = init offers_cuda (some model) true fresh_container in
    let (c', freed, ret') = deinit c in
    let fails = configures offers_cuda && not (is_readable (some model)) in
    let serves = configures offers_cuda && (is_readable (some model) && true) in
    (ret ≡ (
      if serves
      then some ReturnStatus.k_ok
      else (if fails then some ReturnStatus.k_not_found else none)))
    × (held number [] events
        ≡ some (
            if serves
            then Resource.session ∷ Resource.gpu_instance ∷ []
            else (if fails then [] else Resource.gpu_instance ∷ [])))
    × (try_acquire_processor c ≡ (if serves then some construct else none))
    × (c' ≡ fresh_container)
    × (held number [] (events ++ (freed ++ delete_container c'))
        ≡ (if fails then none else some []))
init_example = init_lem offers_cuda true (some model)

abbrev gpu : Gpu
gpu = record { cstep = λ w h. 16; mask = (1024, 1024) }

abbrev gray : Input
gray = record { w = 4; h = 3; c = 1 }

abbrev output : Output
output = record { data_length = none; size = 0; w = 0; h = 0; c = 0 }

abbrev pixel_sizes : PixelType → ℕ
pixel_sizes PixelType.rgb = 3
pixel_sizes PixelType.rgba2rgb = 4

abbrev no_memory : Calls
no_memory = record {
  reports = true;
  creates_tensor = true;
  runs = true;
  gives_data = true;
  allocates = false;
}

process_image-WithinImage_example :
    WithinImage pixel_sizes no_memory gray (process_image gpu no_memory gray output)
process_image-WithinImage_example =
    process_image-WithinImage pixel_sizes gpu no_memory gray output refl refl (omega arith)

abbrev one_pixel : ImageInfo
one_pixel = record { pixels = 7 ∷ 8 ∷ 9 ∷ []; size = 3; w = 1; h = 1; c = 3 }

copied :
    copy_image one_pixel (record one_pixel { size = 0 })
    ≡ Outcome.done (record one_pixel { size = 0 }, ReturnStatus.k_ok, 0 ∷ 1 ∷ [])
copied = process_image-copies one_pixel (record one_pixel { size = 0 }) refl refl
