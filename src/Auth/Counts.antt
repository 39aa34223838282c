-- ===== src/Auth/Counts.antt =====
-- How crates/requests/src/auth.rs counts the uses of a nonce: `prepare_digest` and `DigestPlan::finish` for
-- one challenge after another.
use requests_native.Prelude.{
  ℕ, ◌+◌, ◌^◌, ◌<◌, ◌≡◌, refl, sym, ap, ◌∙◌, ◌≢◌, ◌⊎◌, inl, inr, Bool, true, false, ◌&&◌, Option,
  none, some, List, [], ◌∷◌, arith, if◌then◌else◌, Bool-cases, Option-cases, length, Bytes,
  bytes_eq, bytes_eq_iff,
}
use requests_native.Auth.{
  DigestState, DigestRequest, DigestAlgorithm, DigestPlan, unsupported, prepared, DigestOutput,
  Hashes, Protection, absent, offered, refused, protection, response, finish,
}
use requests_native.Auth.Target.{ParsedUrl, digest_request_target}
use requests_native.Auth.Preparation.{algorithm_of, name_or_default, counted, prepare_digest}

-- What does not belong to this code.
pub record Outside : Type 0 where
  pub hashes : Hashes
  pub decimal : ℕ → Bytes
  pub parse : Bytes → Option ParsedUrl
  pub to_uppercase : Bytes → Bytes

state_ext :
    (s t : DigestState) → s.last_nonce ≡ t.last_nonce → s.nonce_count ≡ t.nonce_count → s ≡ t
state_ext s t a b = λ i. record { last_nonce = a i; nonce_count = b i }

counted_same :
    (state : DigestState) (nonce : Bytes)
    → state.last_nonce ≡ nonce
    → state.nonce_count + 1 < 2 ^ 32
    → (counted state nonce).nonce_count ≡ state.nonce_count + 1
unfolding counted
counted_same state nonce e l =
    rw ((bytes_eq_iff nonce state.last_nonce).1 (sym e)) (omega (arith, l))

counted_other :
    (state : DigestState) (nonce : Bytes)
    → nonce ≢ state.last_nonce
    → (counted state nonce).nonce_count ≡ 1
unfolding counted
counted_other state nonce n = elim (Bool-cases (bytes_eq nonce state.last_nonce)) [
  | inl e ↦ absurd (n ((bytes_eq_iff nonce state.last_nonce).0 e))
  | inr e ↦ rw e refl
]

module _ (o : Outside) where
  -- A request that is prepared and, where that is possible, finished at a time and with random bytes.
  unfoldable pub answer : DigestRequest → DigestState → Bytes × Bytes → DigestOutput
  unfolding prepare_digest finish
  answer request state (ctime, random) =
      elim (prepare_digest o.parse o.to_uppercase request state) [
        | unsupported s ↦ record { header = none; state = s }
        | prepared plan ↦ finish o.hashes o.decimal plan ctime random
      ]

  -- The state behind answers to the same challenge.
  unfoldable pub answers : DigestRequest → List (Bytes × Bytes) → DigestState → DigestState
  unfolding answer
  answers request [] state = state
  answers request (draw ∷ draws) state = answers request draws (answer request state draw).state

  -- The algorithm, the target and the protection of a request are all supported.
  pub record IsSupported (request : DigestRequest) : Type 0 where
    pub algorithm : DigestAlgorithm
    pub path : Bytes
    pub algorithm_is :
        algorithm_of (o.to_uppercase (name_or_default request.challenge.algorithm)) ≡ some algorithm
    pub path_is : digest_request_target o.parse request.url ≡ some path
    pub protection_is : protection request.challenge.qop ≢ refused

  response-some :
      (plan : DigestPlan) (ctime random : Bytes) (p : Protection)
      → p ≢ refused
      → (r : Bytes) × (response o.hashes o.decimal plan ctime random p ≡ some r)
  unfolding response
  response-some plan ctime random absent h = (_, refl)
  response-some plan ctime random offered h = (_, refl)
  response-some plan ctime random refused h = absurd (h refl)

  finish-state :
      (plan : DigestPlan) (ctime random : Bytes)
      → protection plan.request.challenge.qop ≢ refused
      → (finish o.hashes o.decimal plan ctime random).state
        ≡ record plan.state { last_nonce = plan.request.challenge.nonce }
  unfolding finish
  finish-state plan ctime random h =
      let (r, e) = response-some plan ctime random (protection plan.request.challenge.qop) h in
      rw (e, finish) refl

  module _ (request : DigestRequest) (s : IsSupported request) where
    answer-state :
        (state : DigestState) (draw : Bytes × Bytes)
        → (answer request state draw).state
          ≡ record (counted state request.challenge.nonce) { last_nonce = request.challenge.nonce }
    unfolding answer prepare_digest counted
    answer-state state (ctime, random) =
        rw (s.algorithm_is, s.path_is, answer, prepare_digest)
          (finish-state
            record {
              request = request;
              algorithm = s.algorithm;
              path = s.path;
              state = counted state request.challenge.nonce;
            }
            ctime random s.protection_is)

    -- Where the nonce is the last one, each answer counts it once more.
    answers-more :
        (draws : List (Bytes × Bytes)) (state : DigestState)
        → state.last_nonce ≡ request.challenge.nonce
        → state.nonce_count + length draws < 2 ^ 32
        → answers request draws state ≡ record {
          last_nonce = request.challenge.nonce;
          nonce_count = state.nonce_count + length draws;
        }
    unfolding answers
    answers-more [] state e l = state_ext _ _ e (omega arith)
    answers-more (draw ∷ draws) state e l =
        let next = answer request state draw in
        let a = answer-state state draw in
        let c =
          ap (λ (x : DigestState). x.nonce_count) a
          ∙ counted_same state request.challenge.nonce e (omega (arith, l)) in
        answers-more draws next.state (ap (λ (x : DigestState). x.last_nonce) a)
          (omega (arith, l, c))
        ∙ state_ext _ _ refl (omega (arith, c))

-- A client that answers one challenge again and again, from a state that saw another nonce last, counts
-- the nonce as often as it answered, up to the end of 32 bits: each answer has a count of its own.
pub answers-count :
    (o : Outside) (request : DigestRequest) (state : DigestState) (draw : Bytes × Bytes)
    (draws : List (Bytes × Bytes))
    → IsSupported o request
    → request.challenge.nonce ≢ state.last_nonce
    → length draws + 1 < 2 ^ 32
    → answers o request (draw ∷ draws) state
      ≡ record { last_nonce = request.challenge.nonce; nonce_count = length draws + 1 }
unfolding answers
answers-count o request state draw draws s n l =
    let a = answer-state o request s state draw in
    let c =
      ap (λ (x : DigestState). x.nonce_count) a ∙ counted_other state request.challenge.nonce n in
    answers-more o request s draws (answer o request state draw).state
      (ap (λ (x : DigestState). x.last_nonce) a) (omega (arith, l, c))
    ∙ state_ext _ _ refl (omega (arith, c))

abbrev pub is_some : {A : Type 0} → Option A → Bool
is_some none = false
is_some (some a) = true

abbrev pub is_accepted : Protection → Bool
is_accepted absent = true
is_accepted offered = true
is_accepted refused = false

protection-cases : (p : Protection) → (p ≡ absent) ⊎ ((p ≡ offered) ⊎ (p ≡ refused))
protection-cases absent = inl refl
protection-cases offered = inr (inl refl)
protection-cases refused = inr (inr refl)

finish-header :
    (o : Outside) (plan : DigestPlan) (ctime random : Bytes)
    → (is_some (finish o.hashes o.decimal plan ctime random).header
        ≡ is_accepted (protection plan.request.challenge.qop))
      × ((finish o.hashes o.decimal plan ctime random).state.last_nonce ≡ (
          if is_accepted (protection plan.request.challenge.qop)
          then plan.request.challenge.nonce
          else plan.state.last_nonce))
unfolding finish response
finish-header o plan ctime random =
    elim (protection-cases (protection plan.request.challenge.qop)) [
      | inl e ↦ rw (e, finish) (refl, refl)
      | inr (inl e) ↦ rw (e, finish) (refl, refl)
      | inr (inr e) ↦ rw (e, finish) (refl, refl)
    ]

-- A challenge is answered with a header exactly where its algorithm, the target of the request and the
-- protection are all supported. Where it is, the state remembers the nonce of the challenge, and else the
-- nonce it had.
pub answer-header :
    (o : Outside) (request : DigestRequest) (state : DigestState) (draw : Bytes × Bytes)
    → let supported =
        is_some (algorithm_of (o.to_uppercase (name_or_default request.challenge.algorithm)))
        && is_some (digest_request_target o.parse request.url)
        && is_accepted (protection request.challenge.qop) in
      (is_some (answer o request state draw).header ≡ supported)
      × ((answer o request state draw).state.last_nonce
          ≡ (if supported then request.challenge.nonce else state.last_nonce))
unfolding answer prepare_digest counted
answer-header o request state (ctime, random) =
    elim (Option-cases
      (algorithm_of (o.to_uppercase (name_or_default request.challenge.algorithm)))) [
        | inl a ↦ rw (a, answer, prepare_digest) (refl, refl)
        | inr (algorithm, a) ↦ elim (Option-cases (digest_request_target o.parse request.url)) [
          | inl t ↦ rw (a, t, answer, prepare_digest) (refl, refl)
          | inr (path, t) ↦
              rw (a, t, answer, prepare_digest)
                (finish-header o
                  record {
                    request = request;
                    algorithm = algorithm;
                    path = path;
                    state = counted state request.challenge.nonce;
                  }
                  ctime random)
        ]
      ]
