-- ===== src/Utils/Tests.antt =====
-- The theorem on sizes at a concrete input.
use ocdscope.Utils.Laws.{Sized, human_readable_size-Sized}

human_readable_size-Sized_example : Sized 5_000_000
human_readable_size-Sized_example = human_readable_size-Sized 5_000_000
