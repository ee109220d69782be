-- ===== src/Processors/Rmbg.antt =====
-- processors/rmbg/rmbg.cpp: the container of a network that removes the background, its processor, and
-- `process_image`. ONNX Runtime and ncnn are the parameters; their calls are the transfers and commands.
pub mod Loading
pub mod Image
pub mod Replay
use limb_worker.Prelude.{
  ℕ, ◌+◌, ◌*◌, ◌^◌, Bool, true, false, not, ◌&&◌, Option, none, some, Bytes, List, [], ◌∷◌, ◌++◌,
  ltb, ◌==◌, if◌then◌else◌, Outcome,
}
use limb_worker.Status.{ReturnStatus, status_code}
use limb_worker.Files.{File, load_file_content}
use limb_worker.Processors.{int_fits}
use limb_worker.Processors.Transfers.{Transfer}

pub data Resource : Type 0 where
  gpu_instance session device pipeline blob_allocator staging_allocator : Resource

abbrev pub number : Resource → ℕ
number Resource.gpu_instance = 0
number Resource.session = 1
number Resource.device = 2
number Resource.pipeline = 3
number Resource.blob_allocator = 4
number Resource.staging_allocator = 5

-- What is set on `sessionOptions`.
pub data Setting : Type 0 where
  logs_warnings cuda_provider no_mem_pattern all_optimizations : Setting

pub record Container : Type 0 where
  pub session : Bool
  pub session_options : List Setting
  pub model_buffer : Bytes

abbrev pub fresh_container : Container
fresh_container = record { session = false; session_options = []; model_buffer = [] }

-- `delete session`, in `deinit` and in the destructor.
abbrev pub free_session : Container → List (Transfer Resource)
free_session c = if c.session then Transfer.frees Resource.session ∷ [] else []

pub delete_container : Container → List (Transfer Resource)
delete_container c = free_session c

pub deinit : Container → Container × List (Transfer Resource) × ReturnStatus
deinit c = (
  record { session = false; session_options = []; model_buffer = [] },
  free_session c ++ (Transfer.frees Resource.gpu_instance ∷ []),
  ReturnStatus.k_ok,
)

abbrev cuda_settings : Bool → List Setting
cuda_settings cuda = if cuda then Setting.cuda_provider ∷ Setting.no_mem_pattern ∷ [] else []

-- `loadFile`, a copy of `loadFileContent`.
abbrev load_file : Option File → Bytes → Bytes × ReturnStatus
load_file file buffer = load_file_content file buffer

-- The calls that set these, in order, up to one that throws; whether all return.
abbrev pub configure : (Setting → Bool) → List Setting → List Setting → List Setting × Bool
configure returns set [] = (set, true)
configure returns set (x ∷ xs) =
    let more = configure returns (set ++ x ∷ []) xs in if returns x then more else (set, false)

-- What the calls on the session's options do: whether each returns, and what `cudaSuppored` says, or
-- `none` where `GetAvailableProviders` throws.
pub record OptionCalls : Type 0 where
  pub returns : Setting → Bool
  pub cuda_supported : Option Bool

-- From `loadFile` on, with the options set.
abbrev pub load_session :
    Option File → Bool → Container → Container × List (Transfer Resource) × Option ReturnStatus
load_session file opens c =
    let (loaded, ret) = load_file file c.model_buffer in
    let prepared : Container = record c { model_buffer = loaded } in
    let (closed, freed, ignored) = deinit prepared in
    if not (status_code ret == 0)
    then (closed, Transfer.takes Resource.gpu_instance ∷ freed, some ReturnStatus.k_not_found)
    else if not opens
    then (prepared, Transfer.takes Resource.gpu_instance ∷ [], none)
    else (
      record prepared { session = true },
      Transfer.takes Resource.gpu_instance ∷ Transfer.takes Resource.session ∷ [],
      some ReturnStatus.k_ok,
    )

-- The calls on the options, the model's file, and whether the constructor of the session returns. The
-- status is `none` where `init` throws.
pub init :
    OptionCalls
    → Option File
    → Bool
    → Container
    → Container × List (Transfer Resource) × Option ReturnStatus
unfolding deinit
init calls file opens c =
    let (logged, logs) = configure calls.returns c.session_options (Setting.logs_warnings ∷ []) in
    let thrown : Container × List (Transfer Resource) × Option ReturnStatus =
      (record c { session_options = logged }, Transfer.takes Resource.gpu_instance ∷ [], none) in
    if not logs then thrown else elim calls.cuda_supported [
      | none ↦ thrown
      | some cuda ↦
          let (set, configured) =
            configure calls.returns logged (cuda_settings cuda ++ Setting.all_optimizations ∷ []) in
          let optioned : Container = record c { session_options = set } in
          if not configured
          then (optioned, Transfer.takes Resource.gpu_instance ∷ [], none)
          else load_session file opens optioned
    ]

-- The processor's constructor and destructor.
pub construct : List (Transfer Resource)
construct = Transfer.takes Resource.device ∷ Transfer.takes Resource.pipeline ∷ []

pub reclaim_processor : List (Transfer Resource)
reclaim_processor = Transfer.frees Resource.device ∷ Transfer.frees Resource.pipeline ∷ []

-- `none` is the null pointer.
pub try_acquire_processor : Container → Option (List (Transfer Resource))
try_acquire_processor c = if not c.session then none else some construct

-- The input image by what is read of it; `size` is not set.
pub record Input : Type 0 where
  pub w : ℕ
  pub h : ℕ
  pub c : ℕ

-- `data` is `none` for null, or its length.
pub record Output : Type 0 where
  pub data_length : Option ℕ
  pub size : ℕ
  pub w : ℕ
  pub h : ℕ
  pub c : ℕ

pub data PixelType : Type 0 where
  rgb rgba2rgb : PixelType

-- What ncnn gives: the step between channels of a matrix over given pixels, and the mask's sizes on the
-- device.
pub record Gpu : Type 0 where
  pub cstep : ℕ → ℕ → ℕ
  pub mask : ℕ × ℕ

-- `resizes` is from pixels of a type and sizes to sizes; `allocates_result` is the memory of the image
-- that `process_image` hands out, `drops_commands` the destructor of `cmd`. The constants and the dispatcher of the
-- pipeline are written out.
pub data Command : Type 0 where
  transfers : Transfer Resource → Command
  reports : ℕ → Command
  resizes : PixelType → ℕ → ℕ → ℕ → ℕ → Command
  normalizes runs_session clones_mask clones_image submits_and_waits : Command
  creates_output : ℕ → ℕ → ℕ → Command
  postprocesses : List ℕ → ℕ → ℕ → ℕ → Command
  allocates_result writes_pixels : ℕ → Command
  drops_commands : Command

abbrev pub pixel_type : Input → PixelType
pixel_type image = if image.c == 4 then PixelType.rgba2rgb else PixelType.rgb

-- The commands up to the progress callback, from there to the tensor of the input, and from the
-- network's run to the memory for the result.
abbrev pub opening : List Command
opening =
    Command.transfers (Transfer.takes Resource.blob_allocator)
    ∷ Command.transfers (Transfer.takes Resource.staging_allocator)
    ∷ Command.reports 0
    ∷ []

abbrev pub preprocessing : Input → List Command
preprocessing image =
    Command.resizes (pixel_type image) image.w image.h 1024 1024 ∷ Command.normalizes ∷ []

abbrev pub postprocessing : Gpu → Input → List Command
postprocessing gpu image =
    Command.creates_output image.w image.h 4
    ∷ Command.clones_mask
    ∷ Command.submits_and_waits
    ∷ Command.clones_image
    ∷ Command.submits_and_waits
    ∷ Command.postprocesses
        (image.w ∷ image.h ∷ gpu.cstep image.w image.h ∷ gpu.mask.0 ∷ gpu.mask.1 ∷ image.c ∷ 4 ∷ [])
        image.w image.h 4
    ∷ []

abbrev pub downloading : Input → List Command
downloading image =
    Command.allocates_result (image.w * image.h * 4)
    ∷ Command.writes_pixels (image.w * image.h * 4)
    ∷ Command.submits_and_waits
    ∷ Command.drops_commands
    ∷ []

-- What the destructors of `staging_vkallocator` and `blob_vkallocator` do on every way out.
abbrev pub leaving : List Command
leaving =
    Command.transfers (Transfer.frees Resource.staging_allocator)
    ∷ Command.transfers (Transfer.frees Resource.blob_allocator)
    ∷ []

-- Which of the calls return, and do not throw: the progress callback, `CreateTensor`, those in the
-- `try`, `GetTensorMutableData`, and `new` for the result.
pub record Calls : Type 0 where
  pub reports : Bool
  pub creates_tensor : Bool
  pub runs : Bool
  pub gives_data : Bool
  pub allocates : Bool

-- `outimage` is what the caller passes, whose `size` stays as it is where the run fails. The status is
-- `none` where the call throws.
pub process_image :
    Gpu → Calls → Input → Output → Outcome (Output × Option ReturnStatus × List Command)
process_image gpu calls inimage outimage =
    let bytes = inimage.w * inimage.h * 4 in
    let prepared : Output = record {
      data_length = none;
      size = outimage.size;
      w = inimage.w;
      h = inimage.h;
      c = 4;
    } in
    if not (int_fits inimage.w inimage.h 4)
    then Outcome.undefined
    else if not calls.reports
    then Outcome.done (prepared, none, opening ++ leaving)
    else if not calls.creates_tensor
    then Outcome.done (prepared, none, opening ++ (preprocessing inimage ++ leaving))
    else if not calls.runs
    then Outcome.done (
      prepared,
      some ReturnStatus.k_aborted,
      opening ++ (preprocessing inimage ++ (Command.runs_session ∷ leaving)),
    )
    else if not calls.gives_data
    then Outcome.done
        (prepared, none, opening ++ (preprocessing inimage ++ (Command.runs_session ∷ leaving)))
    else if not calls.allocates
    then Outcome.done (
      record prepared { size = bytes },
      none,
      opening
          ++ (preprocessing inimage
              ++ (Command.runs_session
                  ∷ (postprocessing gpu inimage ++ (Command.drops_commands ∷ leaving)))),
    )
    else Outcome.done (
      record prepared { data_length = some bytes; size = bytes },
      some ReturnStatus.k_ok,
      opening
          ++ (preprocessing inimage
              ++ (Command.runs_session
                  ∷ (postprocessing gpu inimage ++ (downloading inimage ++ leaving)))),
    )
