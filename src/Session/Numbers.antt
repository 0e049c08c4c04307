-- ===== src/Session/Numbers.antt =====
-- The numbers of a list of events, which crates/acp-web-backend/src/sessions/handle.rs takes from
-- `latest_sequence`.
use mathlib.Core.Option.{some-injective}
use acp_orchestrator.Common.{
  ℕ, zero, suc, ◌+◌, ◌<◌, ◌≡◌, sym, ap, ◌∙◌, List, [], ◌∷◌, ◌++◌, some, arith, get_elem?, take,
  Bool, true, false, if◌then◌else◌, subst,
}
use acp_orchestrator.Common.Word.{succ_u64, succ_u64-eq, u64_mod}
use acp_orchestrator.Contracts.Stream.{StreamEvent, StreamEventPayload, session_snapshot}

-- The events that take a number of their own: all but a session's snapshot.
abbrev pub is_numbered : StreamEventPayload → Bool
is_numbered (session_snapshot _) = false
is_numbered _ = true

-- The number of the event after number `n`.
abbrev pub after : ℕ → StreamEventPayload → ℕ
after n payload = if is_numbered payload then succ_u64 n else n

-- From number `n`, each event has the next `u64` number, and a snapshot the last one, up to `m`.
abbrev pub Gapless : ℕ → List StreamEvent → ℕ → Type 0
Gapless n [] m = n ≡ m
Gapless n (e ∷ es) m = (e.sequence ≡ after n e.payload) × Gapless e.sequence es m

pub Gapless-append :
    (n k m : ℕ) (es fs : List StreamEvent)
    → Gapless n es k
    → Gapless k fs m
    → Gapless n (es ++ fs) m
Gapless-append n k m [] fs h g = subst (λ i. Gapless i fs m) (sym h) g
Gapless-append n k m (e ∷ es) fs h g = (h.0, Gapless-append e.sequence k m es fs h.1 g)

-- How many of the events take a number.
abbrev pub numbered : List StreamEvent → ℕ
numbered [] = 0
numbered (e ∷ es) = if is_numbered e.payload then suc (numbered es) else numbered es

-- A gapless list that does not wrap is numbered `n + 1`, `n + 2` and so on.
Gapless-first :
    (n k : ℕ) (x : StreamEvent) (b : Bool)
    → x.sequence ≡ (if b then succ_u64 n else n)
    → n + (if b then suc k else k) < u64_mod
    → (x.sequence ≡ n + (if b then 1 else 0)) × (x.sequence + k < u64_mod)
Gapless-first n k x true h b =
    let first = h ∙ succ_u64-eq n (omega arith) in (first, omega (arith, first))
Gapless-first n k x false h b = (omega (arith, h), omega (arith, h))

numbered_suc :
    (b : Bool) (n k x : ℕ) → x ≡ n + (if b then 1 else 0) → x + k ≡ n + (if b then suc k else k)
numbered_suc true n k x h = omega arith
numbered_suc false n k x h = omega arith

pub Gapless-length :
    (n m : ℕ) (es : List StreamEvent)
    → Gapless n es m
    → n + numbered es < u64_mod
    → m ≡ n + numbered es
Gapless-length n m [] h b = omega arith
Gapless-length n m (x ∷ es) h b =
    let first = Gapless-first n (numbered es) x (is_numbered x.payload) h.0 b in
    Gapless-length x.sequence m es h.1 first.1
    ∙ numbered_suc (is_numbered x.payload) n (numbered es) x.sequence first.0

pub Gapless-at :
    (n m : ℕ) (es : List StreamEvent)
    → Gapless n es m
    → n + numbered es < u64_mod
    → (i : ℕ) (e : StreamEvent) → get_elem? es i ≡ some e
    → e.sequence ≡ n + numbered (take (suc i) es)
Gapless-at n m [] h b i e g = cc
Gapless-at n m (x ∷ es) h b zero e g =
    let first = Gapless-first n (numbered es) x (is_numbered x.payload) h.0 b in
    ap (λ (y : StreamEvent). y.sequence) (sym (some-injective x e g)) ∙ first.0
Gapless-at n m (x ∷ es) h b (suc i) e g =
    let first = Gapless-first n (numbered es) x (is_numbered x.payload) h.0 b in
    Gapless-at x.sequence m es h.1 first.1 i e g
    ∙ numbered_suc (is_numbered x.payload) n (numbered (take (suc i) es)) x.sequence first.0
