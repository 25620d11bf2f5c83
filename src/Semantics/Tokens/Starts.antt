-- ===== src/Semantics/Tokens/Starts.antt =====
-- The text at which a token starts, which Retrocausal (21) compares.
use causalontology.Prelude.{
  none, some, Option, find, Option-cases, ap, ◌∙◌, String, ◌≡◌, ◌⊎◌, inl, inr, refl, arith, Map,
  sym,
}
use causalontology.Json.{as_object, as_text, get, Fields, end, at, text_at, object_of}
use causalontology.Semantics.Rules.{object_at}
use causalontology.Semantics.Tokens.{start_of}

-- The text at which a token starts: that of `start` in its `interval`, the empty text where there is
-- no such token, no such object or no such text.
abbrev pub Starts : Map Fields → String → String → Type 0
Starts token_map id t =
    ((token : Fields) × (interval : Fields) × (find token_map id ≡ some token)
      × (as_object (at token "interval") ≡ some interval)
      × (as_text (at interval "start") ≡ some t))
    ⊎ ((t ≡ "") × (find token_map id ≡ none))
    ⊎ ((t ≡ "")
        × ((token : Fields) × (find token_map id ≡ some token)
            × (as_object (at token "interval") ≡ none)))
    ⊎ ((t ≡ "")
        × ((token : Fields) × (interval : Fields) × (find token_map id ≡ some token)
            × (as_object (at token "interval") ≡ some interval)
            × (as_text (at interval "start") ≡ none)))

bare_start : text_at (object_at end "interval") "start" ≡ ""
unfolding object_at text_at at get as_object as_text
bare_start = refl

unknown_start :
    (token_map : Map Fields) (id : String) → find token_map id ≡ none → start_of token_map id ≡ ""
unfolding start_of object_of
unknown_start token_map id e =
    ap
      (λ (m : Option Fields).
        text_at (object_at (elim m [ none ↦ end | some rec ↦ rec ]) "interval") "start")
      e
    ∙ bare_start

pub start_of-Starts :
    (token_map : Map Fields) (id : String) → Starts token_map id (start_of token_map id)
unfolding start_of object_of object_at text_at
start_of-Starts token_map id = elim (Option-cases (find token_map id)) [
  | inl e ↦ inr (inl (unknown_start token_map id e, e))
  | inr (token, e) ↦ elim (Option-cases (as_object (at token "interval"))) [
    | inl f ↦ inr (inr (inl (no_interval token e f, (token, e, f))))
    | inr (interval, f) ↦ elim (Option-cases (as_text (at interval "start"))) [
      | inl g ↦ inr (inr (inr (no_start token interval e f g, (token, interval, e, f, g))))
      | inr (t, g) ↦
          inl (token, interval, e, f, g ∙ ap some (sym (starts_at token interval t e f g)))
    ]
  ]
]
  where
    no_interval :
        (token : Fields)
        → find token_map id ≡ some token
        → as_object (at token "interval") ≡ none
        → start_of token_map id ≡ ""
    no_interval token e f = ground (arith, e, f)

    no_start :
        (token interval : Fields)
        → find token_map id ≡ some token
        → as_object (at token "interval") ≡ some interval
        → as_text (at interval "start") ≡ none
        → start_of token_map id ≡ ""
    no_start token interval e f g = ground (arith, e, f, g)

    starts_at :
        (token interval : Fields) (t : String)
        → find token_map id ≡ some token
        → as_object (at token "interval") ≡ some interval
        → as_text (at interval "start") ≡ some t
        → start_of token_map id ≡ t
    starts_at token interval t e f g = ground (arith, e, f, g)

pub start_once :
    (token_map : Map Fields) (id t : String) → Starts token_map id t → start_of token_map id ≡ t
unfolding start_of object_of object_at text_at
start_once token_map id t (inl (token, interval, e, f, g)) = ground (arith, e, f, g)
start_once token_map id t (inr (inl (h, e))) = unknown_start token_map id e ∙ sym h
start_once token_map id t (inr (inr (inl (h, (token, e, f))))) = ground (arith, e, f, h)
start_once token_map id t (inr (inr (inr (h, (token, interval, e, f, g))))) =
    ground (arith, e, f, g, h)
