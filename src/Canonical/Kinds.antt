-- ===== src/Canonical/Kinds.antt =====
-- The tables of canonical.go: IdentityFields, and Prefix and KindOfPrefix, which are built from it.
use causalontology.Prelude.{String, List, [], ◌∷◌, Option, none, some, ◌==◌, if◌then◌else◌}

unfoldable pub lookup_fields : List (String × List String) → String → Option (List String)
lookup_fields [] kind = none
lookup_fields ((k, fields) ∷ table) kind =
    let rest = lookup_fields table kind in if k == kind then some fields else rest

-- IdentityFields
abbrev pub identity_table : List (String × List String)
identity_table =
    ("occurrent", "label" ∷ "category" ∷ "stratum" ∷ [])
    ∷ (
      "causal_relation_object",
      "causes" ∷ "effects" ∷ "mechanism" ∷ "temporal" ∷ "modality" ∷ "context" ∷ "refines" ∷ "skips"
          ∷ [],
    )
    ∷ ("continuant", "label" ∷ "category" ∷ [])
    ∷ ("realizable", "kind" ∷ "bearer" ∷ "label" ∷ [])
    ∷ ("stratum", "label" ∷ "scheme" ∷ "ordinal" ∷ "unit" ∷ "governs" ∷ [])
    ∷ ("bridge", "coarse" ∷ "fine" ∷ "relation" ∷ [])
    ∷ ("cross_stratal_seam", "source" ∷ "target" ∷ "mechanism_status" ∷ "chain" ∷ [])
    ∷ ("port", "bearer" ∷ "label" ∷ "direction" ∷ "accepts" ∷ "realizable" ∷ [])
    ∷ ("conduit", "label" ∷ "from" ∷ "to" ∷ "carries" ∷ "transform" ∷ "realized_by" ∷ [])
    ∷ ("quality", "label" ∷ "datatype" ∷ "unit" ∷ "stratum" ∷ [])
    ∷ ("token_individual", "instantiates" ∷ "designator" ∷ "part_of" ∷ [])
    ∷ ("token_occurrence", "instantiates" ∷ "interval" ∷ "participants" ∷ "locus" ∷ "observer" ∷ [])
    ∷ ("state_assertion", "subject" ∷ "quality" ∷ "value" ∷ "interval" ∷ [])
    ∷ (
      "token_causal_claim",
      "causes" ∷ "effects" ∷ "covering_law" ∷ "actual_delay" ∷ "counterfactual" ∷ [],
    )
    ∷ ("attitude", "holder" ∷ "attitude_type" ∷ "content" ∷ [])
    ∷ ("predicted_occurrence", "instantiates" ∷ "interval" ∷ "predictor" ∷ "strength" ∷ [])
    ∷ ("prediction_error", "predicted" ∷ "observed" ∷ "discrepancy" ∷ [])
    ∷ (
      "assertion",
      "about" ∷ "source" ∷ "evidence_type" ∷ "evidence" ∷ "strength" ∷ "confidence" ∷ "timestamp"
          ∷ "evidenced_by" ∷ [],
    )
    ∷ ("enrichment", "about" ∷ "field" ∷ "entry" ∷ "source" ∷ "timestamp" ∷ [])
    ∷ ("retraction", "retracts" ∷ "source" ∷ "timestamp" ∷ [])
    ∷ ("succession", "predecessor" ∷ "successor" ∷ "timestamp" ∷ [])
    ∷ []

-- `fields, known := IdentityFields[kind]`
unfoldable pub identity_fields : String → Option (List String)
unfolding lookup_fields
identity_fields kind = lookup_fields identity_table kind

-- `kind, known := KindOfPrefix[scheme]`
unfoldable pub kind_of_prefix : String → Option String
unfolding identity_fields
kind_of_prefix scheme = elim (identity_fields scheme) [ none ↦ none | some _ ↦ some scheme ]

-- `Prefix[kind]`
unfoldable pub prefix : String → String
unfolding identity_fields
prefix kind = elim (identity_fields kind) [ none ↦ "" | some _ ↦ kind ]
