-- ===== src/Network/Starting.antt =====
-- `Start`, on every answer of the system.
use mathlib.Core.Option.{some-injective}
use mathlib.Core.Path.{subst}
use rift_net.Base.{
  ℕ, ◌+◌, ◌≡◌, ◌⊎◌, inl, inr, refl, sym, ap, ◌∙◌, Bool, true, false, not, ◌&&◌, ◌||◌, ltb,
  if◌then◌else◌, Bool-cases, if_true, if_false, none, some, ◌>>=◌, List, [], ◌∷◌, length, arith,
}
use rift_net.Base.Counts.{count_of}
use rift_net.Network.{SocketIo, return_receive_context, post_receive, post_all, start}
use rift_net.Network.Contexts.{IsPool}

-- Whether the system refuses a request for one of the contexts.
abbrev pub refuses : (ℕ → Bool) → List ℕ → Bool
refuses accepts [] = false
refuses accepts (context ∷ contexts) = not (accepts context) || refuses accepts contexts

-- The contexts one after another on top of those that the system has.
abbrev pub post_list : List ℕ → List ℕ → List ℕ
post_list [] posted = posted
post_list (context ∷ contexts) posted = post_list contexts (context ∷ posted)

post_all-accepted :
    (s : SocketIo) (contexts : List ℕ) (accepts : ℕ → Bool) (count : ℕ)
    → s.is_running ≡ true
    → refuses accepts contexts ≡ false
    → post_all s contexts accepts count
      ≡ some (record s { posted = post_list contexts s.posted }, count + length contexts)
unfolding post_all post_receive
post_all-accepted s [] accepts count running h = ap (λ n. some (s, n)) (omega arith)
post_all-accepted s (context ∷ contexts) accepts count running h =
    let ok : accepts context ≡ true = ground arith in
    let rest =
      post_all-accepted (record s { posted = context ∷ s.posted }) contexts accepts (count + 1)
        running (ground arith) in
    let posts : post_receive s true context (accepts context)
        ≡ some (record s { posted = context ∷ s.posted }, true) =
      if_true (s.is_running && accepts context) _ _ (ground arith) in
    ap (λ r. r >>= λ (s', ok). post_all s' contexts accepts (if ok then count + 1 else count)) posts
    ∙ rest
    ∙ ap (λ n. some (record s { posted = post_list contexts (context ∷ s.posted) }, n))
        (omega arith)

post_all-refused :
    (s : SocketIo) (contexts : List ℕ) (accepts : ℕ → Bool) (count : ℕ)
    → refuses accepts contexts ≡ true
    → post_all s contexts accepts count ≡ none
unfolding post_all post_receive return_receive_context
post_all-refused s [] accepts count h = cc h
post_all-refused s (context ∷ contexts) accepts count h =
    elim (Bool-cases (s.is_running && accepts context)) [
      | inl e ↦ simp e (
          post_all-refused (record s { posted = context ∷ s.posted }) contexts accepts (count + 1)
            (ground arith))
      | inr e ↦ simp e refl
    ]

-- `Start` does nothing on a running socket. Else it posts a receive for every free context, in
-- order, and says whether there was one; and if the system refuses any of them, its behaviour is
-- undefined, since the refused context is put back under a mutex that the thread has.
pub start_lem :
    (s : SocketIo) (accepts : ℕ → Bool)
    → ((s.is_running ≡ true) × (start s accepts ≡ some (s, true)))
      ⊎ ((s.is_running ≡ false)
          × (refuses accepts s.free_receive_contexts ≡ false)
          × (start s accepts
              ≡ some (
                record s {
                  is_running = true;
                  free_receive_contexts = [];
                  posted = post_list s.free_receive_contexts s.posted;
                },
                ltb 0 (length s.free_receive_contexts),
              )))
      ⊎ ((s.is_running ≡ false)
          × (refuses accepts s.free_receive_contexts ≡ true)
          × (start s accepts ≡ none))
unfolding start
start_lem s accepts = elim (Bool-cases s.is_running) [
  | inl e ↦ inl (e, if_true s.is_running _ _ e)
  | inr e ↦ elim (Bool-cases (refuses accepts s.free_receive_contexts)) [
    | inr ok ↦ inr (
        inl (
          e,
          ok,
          if_false s.is_running _ _ e
              ∙ ap
                  (λ r. r >>= λ (s', count).
                    some (record s' { free_receive_contexts = [] }, ltb 0 count))
                  (post_all-accepted (record s { is_running = true }) s.free_receive_contexts
                    accepts 0 refl ok)
              ∙ ap
                  (λ n. some (
                    record s {
                      is_running = true;
                      free_receive_contexts = [];
                      posted = post_list s.free_receive_contexts s.posted;
                    },
                    ltb 0 n,
                  ))
                  (omega arith),
        ))
    | inl refused ↦ inr (
        inr (
          e,
          refused,
          if_false s.is_running _ _ e
              ∙ ap
                  (λ r. r >>= λ (s', count).
                    some (record s' { free_receive_contexts = [] }, ltb 0 count))
                  (post_all-refused (record s { is_running = true }) s.free_receive_contexts accepts
                    0 refused),
        ))
  ]
]

count_of-post_list :
    (x : ℕ) (contexts posted : List ℕ)
    → count_of x (post_list contexts posted) ≡ count_of x contexts + count_of x posted
count_of-post_list x [] posted = omega arith
count_of-post_list x (context ∷ contexts) posted =
    omega (arith, count_of-post_list x contexts (context ∷ posted))

pub start-IsPool :
    (s s' : SocketIo) (accepts : ℕ → Bool) (ok : Bool)
    → IsPool s
    → start s accepts ≡ some (s', ok)
    → IsPool s'
start-IsPool s s' accepts ok v h = elim (start_lem s accepts) [
  | inl (_, e) ↦ subst IsPool (ap (λ r. r.0) (some-injective _ _ (sym e ∙ h))) v
  | inr (inl (_, _, e)) ↦ subst IsPool (ap (λ r. r.0) (some-injective _ _ (sym e ∙ h))) (record {
    placed = λ x. omega (arith, v.placed x, count_of-post_list x s.free_receive_contexts s.posted);
    once = v.once;
    below = v.below;
  })
  | inr (inr (_, _, e)) ↦ cc (e, h)
]
