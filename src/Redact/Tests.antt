-- ===== src/Redact/Tests.antt =====
-- The theorem on the redactor at concrete writes.
use dev_ops_pipeline_orchest.Prelude.{[], ◌∷◌}
use dev_ops_pipeline_orchest.Redact.Writer.{Redactor, new_redactor, write_all}
use dev_ops_pipeline_orchest.Redact.Chunks.{Written, write_all-Written}

abbrev fresh : Redactor
fresh = new_redactor [] ((1 ∷ 2 ∷ 3 ∷ 4 ∷ 5 ∷ 6 ∷ []) ∷ [])

write_all-Written_example :
    Written
      ((1 ∷ 2 ∷ []) ∷ (3 ∷ 4 ∷ 5 ∷ 6 ∷ 10 ∷ 7 ∷ []) ∷ [])
      fresh
      (write_all ((1 ∷ 2 ∷ []) ∷ (3 ∷ 4 ∷ 5 ∷ 6 ∷ 10 ∷ 7 ∷ []) ∷ []) fresh)
write_all-Written_example =
    write_all-Written ((1 ∷ 2 ∷ []) ∷ (3 ∷ 4 ∷ 5 ∷ 6 ∷ 10 ∷ 7 ∷ []) ∷ []) fresh
