-- ===== src/Trace/Follows.antt =====
-- How far a program gets with a list of calls, and what it stops at.
use agience.Base.{
  String, Bool, true, false, List, [], ◌∷◌, ◌++◌, ◌≡◌, refl, ap, sym, ◌∙◌, arith, append_assoc,
  append-nil, inl, inr, subst,
}
use agience.Js.Value.{Value}
use agience.Js.Exec.{Result, ok, thrown, ◌>>=◌, lift, Exn, Result-cases}
use agience.World.{
  Call, Event, request, oidc, console_log, console_error, set_location, navigated, set_item,
  set_search, remove_item, Environment, World, Io,
}
use agience.Client.{authorization, send, logged}
use agience.Trace.{sent, sent-send}

-- The calls that have been sent after some more, which are given in their order.
pub onto : List Call → List Call → List Call
onto [] earlier = earlier
onto (c ∷ cs) earlier = onto cs (c ∷ earlier)

onto-append : (xs ys earlier : List Call) → onto (xs ++ ys) earlier ≡ onto ys (onto xs earlier)
unfolding onto
onto-append [] ys earlier = refl
onto-append (x ∷ xs) ys earlier = onto-append xs ys (x ∷ earlier)

-- What the server has answered to the requests among the events: the newest answer first.
abbrev pub answers : Environment → List Event → List (Result Value)
answers env [] = []
answers env (request r ∷ es) = env.server es r ∷ answers env es
answers env (oidc _ ∷ es) = answers env es
answers env (console_log _ ∷ es) = answers env es
answers env (console_error _ ∷ es) = answers env es
answers env (set_location _ ∷ es) = answers env es
answers env (navigated _ _ ∷ es) = answers env es
answers env (set_search _ ∷ es) = answers env es
answers env (set_item _ _ ∷ es) = answers env es
answers env (remove_item _ ∷ es) = answers env es

-- No request was refused.
abbrev pub all_ok : List (Result Value) → Bool
all_ok [] = true
all_ok (ok _ ∷ rs) = all_ok rs
all_ok (thrown _ ∷ rs) = false

all_ok-append :
    (xs ys : List (Result Value)) → all_ok xs ≡ true → all_ok ys ≡ true → all_ok (xs ++ ys) ≡ true
all_ok-append [] ys p q = q
all_ok-append (ok _ ∷ xs) ys p q = all_ok-append xs ys p q
all_ok-append (thrown _ ∷ xs) ys p q = absurd (ground (arith, p))

-- A run that returns has had no request refused, and one that throws none but its last.
abbrev pub StopsAt : {A : Type 0} → Result A → List (Result Value) → Type 0
StopsAt (ok _) rs = all_ok rs ≡ true
StopsAt (thrown _) [] = Unit
StopsAt (thrown _) (_ ∷ rs) = all_ok rs ≡ true

StopsAt-append :
    {A : Type 0} (r : Result A) (xs ys : List (Result Value))
    → StopsAt r xs
    → all_ok ys ≡ true
    → StopsAt r (xs ++ ys)
StopsAt-append (ok _) xs ys p q = all_ok-append xs ys p q
StopsAt-append (thrown _) [] [] p q = tt
StopsAt-append (thrown _) [] (ok _ ∷ ys) p q = q
StopsAt-append (thrown _) [] (thrown _ ∷ ys) p q = absurd (ground (arith, q))
StopsAt-append (thrown _) (_ ∷ xs) ys p q = all_ok-append xs ys p q

unasked : {A : Type 0} (r : Result A) → StopsAt r []
unasked (ok _) = refl
unasked (thrown _) = tt

answered_last : (r : Result Value) → StopsAt r (r ∷ [])
answered_last (ok _) = refl
answered_last (thrown _) = refl

thrown_again :
    (A B : Type 0) (e : Exn) (rs : List (Result Value))
    → (let r : Result A = thrown e in StopsAt r rs)
    → (let r : Result B = thrown e in StopsAt r rs)
thrown_again A B e [] p = tt
thrown_again A B e (_ ∷ rs) p = p

-- How far a run got with a list of calls: it sent the first of them, in order and each once, and
-- all of them if it returned, and it sent none after one that was refused.
pub record Follows {A : Type 0} (plan : List Call) (m : Io A) (w : World) : Type 0 where
  pub done : List Call
  pub left : List Call
  pub split : plan ≡ done ++ left
  pub in_order : sent (m w).1 ≡ onto done (sent w)
  pub complete : (a : A) → (m w).0 ≡ ok a → left ≡ []
  pub same_env : (m w).1.env ≡ w.env
  pub replies : List (Result Value)
  pub answered : answers w.env (m w).1.history ≡ replies ++ answers w.env w.history
  pub stops : StopsAt (m w).0 replies

module _ {A B : Type 0} {p : List Call} (q : List Call) (m : Io A) (f : A → Io B) (w : World)
    (first : Follows p m w) where
  Follows-bind_ok :
      (a : A) → (m w).0 ≡ ok a → Follows q (f a) (m w).1 → Follows (p ++ q) (m >>= f) w
  unfolding ◌>>=◌
  Follows-bind_ok a returned second = record {
    done = first.done ++ second.done;
    left = second.left;
    split =
        ap (λ l. l ++ q)
          (first.split ∙ ap (λ l. first.done ++ l) (first.complete a returned) ∙ append-nil _)
        ∙ ap (λ l. first.done ++ l) second.split
        ∙ sym (append_assoc first.done second.done second.left);
    in_order = rw returned (
        second.in_order
        ∙ ap (onto second.done) first.in_order
        ∙ sym (onto-append first.done second.done (sent w)));
    complete = λ b h. second.complete b (rw returned at h);
    same_env = rw returned (second.same_env ∙ first.same_env);
    replies = second.replies ++ first.replies;
    answered = rw returned (
        ap (λ e. answers e (f a (m w).1).1.history) (sym first.same_env)
        ∙ second.answered
        ∙ ap (λ e. second.replies ++ answers e (m w).1.history) first.same_env
        ∙ ap (λ l. second.replies ++ l) first.answered
        ∙ sym (append_assoc second.replies first.replies (answers w.env w.history)));
    stops = rw returned (
        StopsAt-append (f a (m w).1).0 second.replies first.replies second.stops
          (subst (λ r. StopsAt r first.replies) returned first.stops));
  }

  Follows-bind_thrown : (e : Exn) → (m w).0 ≡ thrown e → Follows (p ++ q) (m >>= f) w
  unfolding ◌>>=◌
  Follows-bind_thrown e failed = record {
    done = first.done;
    left = first.left ++ q;
    split = ap (λ l. l ++ q) first.split ∙ append_assoc first.done first.left q;
    in_order = rw failed first.in_order;
    complete = λ b h. absurd (ground (arith, failed, h));
    same_env = rw failed first.same_env;
    replies = first.replies;
    answered = rw failed first.answered;
    stops = rw failed (
        thrown_again A B e first.replies (subst (λ r. StopsAt r first.replies) failed first.stops));
  }

  pub Follows-bind :
      ((a : A) → (m w).0 ≡ ok a → Follows q (f a) (m w).1) → Follows (p ++ q) (m >>= f) w
  Follows-bind second = elim (Result-cases (m w).0) [
    | inl (a, returned) ↦ Follows-bind_ok a returned (second a returned)
    | inr (e, failed) ↦ Follows-bind_thrown e failed
  ]

pub Follows-logged :
    {A : Type 0} {p : List Call} (message : String) (m : Io A) (w : World)
    → Follows p m w
    → Follows p (logged message m) w
unfolding logged
Follows-logged message m w f = elim (Result-cases (m w).0) [
  | inl (a, returned) ↦ record {
    done = f.done;
    left = f.left;
    split = f.split;
    in_order = rw returned f.in_order;
    complete = λ b h. f.complete a returned;
    same_env = rw returned f.same_env;
    replies = f.replies;
    answered = rw returned f.answered;
    stops = rw returned (subst (λ r. StopsAt r f.replies) returned f.stops);
  }
  | inr (e, failed) ↦ record {
    done = f.done;
    left = f.left;
    split = f.split;
    in_order = rw failed f.in_order;
    complete = λ b h. absurd (ground (arith, failed, h));
    same_env = rw failed f.same_env;
    replies = f.replies;
    answered = rw failed f.answered;
    stops = rw failed (subst (λ r. StopsAt r f.replies) failed f.stops);
  }
]

pub Follows-lift : {A : Type 0} (r : Result A) (w : World) → Follows [] (lift r) w
unfolding ◌>>=◌ onto
Follows-lift r w = record {
  done = [];
  left = [];
  split = refl;
  in_order = refl;
  complete = λ a h. refl;
  same_env = refl;
  replies = [];
  answered = refl;
  stops = unasked r;
}

same_env-send : (c : Call) (w : World) → (send c w).1.env ≡ w.env
unfolding send authorization
same_env-send c w = ground arith

answers-send :
    (c : Call) (w : World)
    → answers w.env (send c w).1.history ≡ (send c w).0 ∷ answers w.env w.history
unfolding send authorization
answers-send c w = ground arith

pub Follows-send : (c : Call) (w : World) → Follows (c ∷ []) (send c) w
unfolding onto
Follows-send c w = record {
  done = c ∷ [];
  left = [];
  split = refl;
  in_order = sent-send c w;
  complete = λ a h. refl;
  same_env = same_env-send c w;
  replies = (send c w).0 ∷ [];
  answered = answers-send c w;
  stops = answered_last (send c w).0;
}
