-- ===== src/DiffInput/Examples.antt =====
-- The two small snapshots of the comparison, where `b` moves to `d`.
use backupsage.Base.{◌≡◌, ◌&&◌, All, true}
use backupsage.Diff.{moved}
use backupsage.Diff.Examples.{earlier, later, compared}
use backupsage.DiffInput
use backupsage.DiffInput.Inference.{is_ready, enabled_iff, moved_needs_enabled}

enabled_iff_example :
    (DiffInput.inference_of earlier later).enabled ≡ (is_ready earlier && is_ready later)
enabled_iff_example = enabled_iff earlier later

moved_needs_enabled_example :
    All
      (λ c. c.kind ≡ moved → (DiffInput.inference_of earlier later).enabled ≡ true)
      compared.0.changes
moved_needs_enabled_example = moved_needs_enabled earlier later compared.0 compared.1
