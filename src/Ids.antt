-- ===== src/Ids.antt =====
-- xerv-core/src/types/ids.rs: identifiers. A `NodeId` is its u32 and a `TraceId` the 128 bits of its
-- UUID, both numbers here.
use xerv.Prelude.{ℕ, String, Bool, true, ◌&&◌, ◌==◌, ◌≡◌, ◌↔◌, arith, nat_eq, string_eq}
use xerv.Prelude.Eq.{Eq}

pub record PipelineId : Type 0 where
  pub name : String
  pub version : ℕ  -- u32

-- The derived `PartialEq`.
abbrev pub same_pipeline : PipelineId → PipelineId → Bool
same_pipeline p q = (p.name == q.name) && (p.version == q.version)

pub same_pipeline_iff : (p q : PipelineId) → (same_pipeline p q ≡ true) ↔ (p ≡ q)
same_pipeline_iff p q =
    ground (arith, string_eq.same_iff p.name q.name, nat_eq.same_iff p.version q.version)

instance abbrev pub pipeline_eq : Eq PipelineId
pipeline_eq = record { same = same_pipeline; same_iff = same_pipeline_iff }
