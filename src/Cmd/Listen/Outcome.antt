-- ===== src/Cmd/Listen/Outcome.antt =====
-- What `Listen` (cmd/clisten.go) returns.
use cdc_trigger.Prelude.{◌≡◌, refl, sym, ◌⊎◌, inl, inr, Option, none, some, arith}
use cdc_trigger.Errors.{GoError}
use cdc_trigger.Cmd.Listen.{
  Pipeline, start, Step, emit, source_ends, cancel, receive, settle, drained, interrupted,
  source_failed, finish, Reach, here, next,
}

-- Nothing was returned yet, or what the source reported.
abbrev Reports : Pipeline → Type 0
Reports p = (p.returned ≡ none) ⊎ (p.returned ≡ p.source_result)

Step-Reports : {p q : Pipeline} → Step p q → Reports p → Reports q
Step-Reports (emit p event opened room) v = v
Step-Reports (source_ends p e h) v = inl (ground (arith, v, h))
Step-Reports (cancel p alive) v = v
Step-Reports (receive p event rest h n q) v = v
Step-Reports (settle p event h) v = v
Step-Reports (drained p w n q c) v = v
Step-Reports (interrupted p w n c) v = v
Step-Reports (source_failed p e h alive) v = v
Step-Reports (finish p e h k c r) v = inr (sym h)

Reach-Reports : {p : Pipeline} → Reach start p → Reports p
Reach-Reports here = inl refl
Reach-Reports (next r st) = Step-Reports st (Reach-Reports r)

-- What `Listen` returns is what the source reported.
pub returned-source_result :
    (p : Pipeline) (e : Option GoError)
    → Reach start p
    → p.returned ≡ some e
    → p.source_result ≡ some e
returned-source_result p e r h = ground (arith, Reach-Reports r, h)
