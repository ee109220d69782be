-- ===== src/Processors/Tests.antt =====
-- An image of six by three pixels, in tiles of two.
mod Others
use limb_worker.Prelude.{
  ◌*◌, ◌/◌, ◌≤◌, ◌<◌, ◌≡◌, ◌↔◌, ◌&&◌, ◌⊎◌, Outcome, List, ℕ, refl, true, false, some, none, [], ◌∷◌,
  ◌++◌, arith, if◌then◌else◌,
}
use limb_worker.Status.{ReturnStatus}
use limb_worker.Processors.Realesrgan.{
  Gpu, Task, tile_count, tile_end, upscale, int_terms, all_fit, process_image, Command,
}
use limb_worker.Processors.Realesrgan.Log.{reads, writes, allocations, progress, collect}
use limb_worker.Processors.Realesrgan.Tiles.{tile_end_lem}
use limb_worker.Processors.Realesrgan.Rows.{Follow, process_image-writes}
use limb_worker.Processors.Realesrgan.Reads.{Within, upscale-reads}
use limb_worker.Processors.Realesrgan.Progress.{fractions, total, upscale-progress}
use limb_worker.Processors.Realesrgan.Container.{
  Resource, fresh_container, init, deinit, delete_container, try_acquire_processor, construct, held,
  deinit-init,
}

abbrev gpu : Gpu
gpu = record {
  cstep = λ w h. w * h;
  extract = λ tile. record { w = tile.w * 4; h = tile.h * 4; cstep = tile.cstep * 16 };
  interpolate = λ factor tile. record {
    w = tile.w * factor;
    h = tile.h * factor;
    cstep = tile.cstep * factor;
  };
}

abbrev task : Task
task = record {
  scale = 4;
  tilesize = 2;
  prepadding = 1;
  tta_mode = false;
  use_fp16_storage = true;
  use_int8_storage = true;
  w = 6;
  h = 3;
  channels = 3;
}

tile_end_example :
    ((2 < tile_count 6 2) × (2 * 2 ≤ 5) × (5 < tile_end 6 2 2)) ↔ ((5 < 6) × (5 / 2 ≡ 2))
tile_end_example = tile_end_lem 6 2 2 5 (omega arith)

process_image-writes_example :
    ((all_fit gpu task (int_terms gpu task) ≡ false) × (process_image gpu task ≡ Outcome.undefined))
    ⊎ ((all_fit gpu task (int_terms gpu task) ≡ true)
        × ((commands : List Command) × (size : ℕ) × (process_image gpu task
              ≡ Outcome.done (commands, ReturnStatus.k_ok))
            × (collect allocations commands ≡ size ∷ [])
            × Follow (collect writes commands) 0 size))
process_image-writes_example = process_image-writes gpu task refl (omega arith) refl

-- 7000 by 6500 pixels are too many.
overflows :
    process_image gpu (record task { w = 7000; h = 6500; tilesize = 1000 }) ≡ Outcome.undefined
unfolding process_image int_terms
overflows = refl

upscale-reads_example :
    let (commands, ret) = upscale gpu task in
    Within (task.w * task.h * task.channels) (collect reads commands)
upscale-reads_example = upscale-reads gpu task (omega arith)

deinit-init_example :
    let (c, events, ret) = init true false fresh_container in
    let (c', freed, ret') = deinit c in
    ((ret ≡ ReturnStatus.k_ok) ↔ ((true ≡ true) × (false ≡ true)))
    × (held [] events
        ≡ some (if true && false then Resource.net ∷ Resource.gpu_instance ∷ [] else []))
    × (try_acquire_processor c ≡ (if true && false then some (construct false true true) else none))
    × (held [] (events ++ (freed ++ delete_container c'))
        ≡ (if true && false then some [] else none))
deinit-init_example = deinit-init true false
