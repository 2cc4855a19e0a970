-- ===== src/Server/Verbs.antt =====
-- Which requests change a session or the slot, and what passes the gate in the clear.
use openairplay.Prelude.{
  ◌≡◌, refl, sym, subst, inl, inr, Bool, Bool-cases, true, false, not, ◌&&◌, ◌||◌, if◌then◌else◌,
  Option, some, List, [], ◌∷◌, ◌++◌, All, Bytes, ascii, same_bytes, same_bytes_iff, starts_with,
  arith,
}
use openairplay.Prelude.Io.{IoResult, ok}
use openairplay.Http.{Request}
use openairplay.Connection.{read_request}
use openairplay.Session.Setup.{Ports}
use openairplay.Server.{
  Externals, Sn, Serving, Turn, reads, is_request, allowed_in_clear, dispatch_session, claimed,
  take_turn,
}

-- The methods that change a session or the slot.
abbrev pub is_verb : Bytes → Bool
is_verb m =
    same_bytes m (ascii "SETUP")
    || same_bytes m (ascii "SET_PARAMETER")
    || same_bytes m (ascii "SETRATEANCHORTIME")
    || same_bytes m (ascii "FLUSHBUFFERED")
    || same_bytes m (ascii "TEARDOWN")

-- No such method on a target that begins with `/pair-`.
abbrev pub IsRegular : Request → Type 0
IsRegular request = (starts_with request.target (ascii "/pair-") && is_verb request.method) ≡ false

verb_cases :
    (m : Bytes)
    → is_verb m ≡ false
    → (same_bytes m (ascii "SETUP") ≡ false)
      × (same_bytes m (ascii "SET_PARAMETER") ≡ false)
      × (same_bytes m (ascii "SETRATEANCHORTIME") ≡ false)
      × (same_bytes m (ascii "FLUSHBUFFERED") ≡ false)
      × (same_bytes m (ascii "TEARDOWN") ≡ false)
verb_cases m h = (ground arith, ground arith, ground arith, ground arith, ground arith)

and_left : (a b : Bool) → (a && b) ≡ true → a ≡ true
and_left a b h = ground arith

pub All-split :
    (rs qs : List Request) → All IsRegular (rs ++ qs) → All IsRegular rs × All IsRegular qs
All-split [] qs h = (tt, h)
All-split (r ∷ rs) qs (p, h) = let (now, later) = All-split rs qs h in ((p, now), later)

module _ (x : Externals) where
  pub if_by :
      {A : Type 0} (P : A → Type 0) (b : Bool) (a c : A)
      → (b ≡ true → P a)
      → (b ≡ false → P c)
      → P (if b then a else c)
  if_by P true a c h k = h refl
  if_by P false a c h k = k refl

  -- Two ends of a test on the method.
  past :
      {A : Type 0} (b : Bool) (p q : A × Sn x) (s : Sn x)
      → b ≡ false
      → q.1 ≡ s
      → (if b then p else q).1 ≡ s
  past true p q s h k = absurd (ground arith)
  past false p q s h k = k

  either :
      {A : Type 0} (b : Bool) (p q : A × Sn x) (s : Sn x)
      → p.1 ≡ s
      → q.1 ≡ s
      → (if b then p else q).1 ≡ s
  either true p q s h k = h
  either false p q s h k = k

  pub not_verb-dispatch_session :
      (ports : Ports) (request : Request) (s : Sn x)
      → is_verb request.method ≡ false
      → (dispatch_session x ports request s).1 ≡ s
  unfolding dispatch_session
  not_verb-dispatch_session ports request s h =
      let (setup, set, rate, flush, teardown) = verb_cases request.method h in
      past (same_bytes request.method (ascii "SETUP")) _ _ s setup (
        either (same_bytes request.method (ascii "GET_PARAMETER")) _ _ s refl (
          past (same_bytes request.method (ascii "SET_PARAMETER")) _ _ s set (
            past (same_bytes request.method (ascii "SETRATEANCHORTIME")) _ _ s rate (
              past (same_bytes request.method (ascii "FLUSHBUFFERED")) _ _ s flush (
                past (same_bytes request.method (ascii "TEARDOWN")) _ _ s teardown (
                  either
                    (same_bytes request.method (ascii "RECORD")
                      || same_bytes request.method (ascii "SETPEERS")
                      || same_bytes request.method (ascii "SETPEERSX"))
                    _ _ s refl refl))))))

  pub not_verb-claimed :
      (request : Request) (s : Serving x) → is_verb request.method ≡ false → claimed x request s ≡ s
  not_verb-claimed request s h = rw ((verb_cases request.method h).0)

  pub claimed_conn : (request : Request) (s : Serving x) → (claimed x request s).conn ≡ s.conn
  claimed_conn request s =
      if_by (λ (t : Serving x). t.conn ≡ s.conn) (same_bytes request.method (ascii "SETUP")) _ _
        (λ h. refl) (λ h. refl)

  -- What passes the gate in the clear does not change the session.
  pub passed_verb :
      (request : Request) (encrypted : Bool)
      → (not encrypted && not (allowed_in_clear request)) ≡ false
      → encrypted ≡ false
      → IsRegular request
      → is_verb request.method ≡ false
  unfolding allowed_in_clear
  passed_verb request encrypted h clear regular =
      elim (Bool-cases (is_request (ascii "GET") (ascii "/info") request)) [
        | inl info ↦
            subst (λ (m : Bytes). is_verb m ≡ false)
              (sym ((same_bytes_iff request.method (ascii "GET")).0 (and_left _ _ info)))
              (unfold same_bytes in refl)
        | inr other ↦ ground arith
      ]

  -- The requests that a connection reads.
  abbrev pub request_in : IoResult (Option Request) → List Request
  request_in (ok (some request)) = request ∷ []
  request_in _ = []

  abbrev pub read_in : Turn x → Serving x → List Request
  read_in (reads random ports) s = request_in (read_request x.aead s.conn).0
  read_in _ s = []

  unfoldable pub requests : List (Turn x) → Serving x → List Request
  unfolding take_turn
  requests [] s = []
  requests (turn ∷ turns) s =
      let later = read_in turn s ++ requests turns (take_turn x turn s) in
      if s.is_open then later else []
