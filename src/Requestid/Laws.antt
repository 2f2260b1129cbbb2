-- ===== src/Requestid/Laws.antt =====
-- A context gets a request id once (requestid/request_id.go).
use gopack.Prelude.{◌≡◌, ◌⊎◌, ◌≢◌, String, arith, Bool-cases, inl, inr, refl}
use text.Mathlib.Text.{◌==◌}
use text.Mathlib.TextEquality.{eq_iff}
use gopack.Requestid.{Contexts, Metadata, string_value, from_context, context}

module _ (ctxs : Contexts) where
  open ctxs use {
    Context, value, with_value, new_outgoing, value-new_outgoing, value-with_value, from_incoming,
    from_outgoing, incoming-with_value, outgoing-with_value,
  }

  pub from_context-with_value :
      (c : Context) (id : String) → from_context ctxs (with_value c (string_value id)) ≡ id
  unfolding from_context
  from_context-with_value c id = rw (value-with_value c (string_value id), from_context)

  pub from_context-new_outgoing :
      (c : Context) (md : Metadata) → from_context ctxs (new_outgoing c md) ≡ from_context ctxs c
  unfolding from_context
  from_context-new_outgoing c md = rw (value-new_outgoing c md, from_context)

  -- The context that `Context` returns carries a request id: the one that it carried before, and
  -- then it is the same context, or the fresh one. Its gRPC metadata stay as they were, and a
  -- second call, whatever id it would make, changes nothing.
  pub context_lem :
      (fresh again : String) (c : Context)
      → fresh ≢ ""
      → let d = context ctxs fresh c in
        (from_context ctxs d ≢ "")
        × (((from_context ctxs c ≢ "") × (d ≡ c))
            ⊎ ((from_context ctxs c ≡ "") × (from_context ctxs d ≡ fresh)))
        × (from_incoming d ≡ from_incoming c)
        × (from_outgoing d ≡ from_outgoing c)
        × (context ctxs again d ≡ d)
  unfolding context
  context_lem fresh again c h = elim (Bool-cases (from_context ctxs c == "")) [
    | inl missing ↦
        rw (missing, from_context-with_value c fresh)
          (
            h,
            inr ((eq_iff _ _).0 missing, refl),
            incoming-with_value c (string_value fresh),
            outgoing-with_value c (string_value fresh),
            ground (arith, eq_iff fresh ""),
          )
    | inr there ↦ rw there (
      λ e. ground (arith, eq_iff (from_context ctxs c) ""),
      inl (λ e. ground (arith, eq_iff (from_context ctxs c) ""), refl),
      refl,
      refl,
      rw there,
    )
  ]
