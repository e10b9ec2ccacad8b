-- ===== src/Action/Traffic.antt =====
-- What an action puts into SendQueue, with one rule for each way to build an action.
use game_database_server.Prelude.{
  ℕ, ◌≡◌, refl, ◌∙◌, subst, Bool, true, false, List, ◌∷◌, Option, none, some, String, if◌then◌else◌,
}
use game_database_server.Packet.{DbResponse}
use game_database_server.Platform.{Call}
use game_database_server.Action
use game_database_server.Action.{
  World, Outcome, ok, thrown, crash, Action, pure, throw, undefined, gets, record_call, deref,
  try_catch, ◌>>=◌,
}

-- Nothing is sent, whether the action returns, throws or stops the process.
pub record Quiet {A : Type 0} (m : Action A) : Type 0 where
  pub at : (w : World) → (m w).1.sent ≡ w.sent

-- One response, to the socket, where the action returns, and none where it throws or stops.
abbrev pub Replied : ℕ → Outcome (Unit {0}) → List DbResponse → List DbResponse → Type 0
Replied s (ok u) before after = (r : DbResponse) × (r.client_socket ≡ s) × (after ≡ r ∷ before)
Replied s (thrown what) before after = after ≡ before
Replied s crash before after = after ≡ before

pub record Answers (s : ℕ) (m : Action (Unit {0})) : Type 0 where
  pub at : (w : World) → Replied s (m w).0 w.sent (m w).1.sent

-- The same for an action that returns whether it has answered.
abbrev pub RepliedIf : ℕ → Outcome Bool → List DbResponse → List DbResponse → Type 0
RepliedIf s (ok true) before after = (r : DbResponse) × (r.client_socket ≡ s) × (after ≡ r ∷ before)
RepliedIf s (ok false) before after = after ≡ before
RepliedIf s (thrown what) before after = after ≡ before
RepliedIf s crash before after = after ≡ before

pub record AnswersIf (s : ℕ) (m : Action Bool) : Type 0 where
  pub at : (w : World) → RepliedIf s (m w).0 w.sent (m w).1.sent

module _ {A : Type 0} where
  pub Quiet-pure : (a : A) → Quiet (pure a)
  unfolding pure
  Quiet-pure a = record { at = λ w. refl }

  pub Quiet-throw : (what : String) → Quiet (throw {A = A} what)
  unfolding throw
  Quiet-throw what = record { at = λ w. refl }

  pub Quiet-undefined : Quiet (undefined {A = A})
  unfolding undefined
  Quiet-undefined = record { at = λ w. refl }

  pub Quiet-gets : (f : World → A) → Quiet (gets f)
  unfolding gets
  Quiet-gets f = record { at = λ w. refl }

  pub Quiet-deref : (o : Option A) → Quiet (deref o)
  unfolding deref
  Quiet-deref none = Quiet-undefined
  Quiet-deref (some a) = Quiet-pure a

  pub Quiet-if : (b : Bool) {m n : Action A} → Quiet m → Quiet n → Quiet (if b then m else n)
  Quiet-if true qm qn = qm
  Quiet-if false qm qn = qn

  pub Quiet-try_catch :
      {m : Action A} {h : String → Action A}
      → Quiet m
      → ((what : String) → Quiet (h what))
      → Quiet (try_catch m h)
  unfolding try_catch
  Quiet-try_catch {m} {h} qm qh = record { at = λ w. handled (m w).0 (m w).1 w.sent (qm.at w) }
    where
      handled :
          (r : Outcome A) (v : World) (before : List DbResponse)
          → v.sent ≡ before
          → (Action.handle r h v).1.sent ≡ before
      handled (ok a) v before e = e
      handled (thrown what) v before e = (qh what).at v ∙ e
      handled crash v before e = e

pub Quiet-record_call : (c : Call) → Quiet (record_call c)
unfolding record_call
Quiet-record_call c = record { at = λ w. refl }

module _ {A B : Type 0} {m : Action A} {f : A → Action B} where
  pub Quiet-bind : Quiet m → ((a : A) → Quiet (f a)) → Quiet (m >>= f)
  unfolding ◌>>=◌
  Quiet-bind qm qf = record { at = λ w. rest (m w).0 (m w).1 w.sent (qm.at w) }
    where
      rest :
          (r : Outcome A) (v : World) (before : List DbResponse)
          → v.sent ≡ before
          → (Action.continue r f v).1.sent ≡ before
      rest (ok a) v before e = (qf a).at v ∙ e
      rest (thrown what) v before e = e
      rest crash v before e = e

module _ {A : Type 0} {s : ℕ} {m : Action A} {f : A → Action (Unit {0})} where
  -- What comes before the answer is quiet.
  pub Answers-bind : Quiet m → ((a : A) → Answers s (f a)) → Answers s (m >>= f)
  unfolding ◌>>=◌
  Answers-bind qm qf = record { at = λ w. rest (m w).0 (m w).1 w.sent (qm.at w) }
    where
      rest :
          (r : Outcome A) (v : World) (before : List DbResponse)
          → v.sent ≡ before
          → Replied s (Action.continue r f v).0 before (Action.continue r f v).1.sent
      rest (ok a) v before e = subst (λ b. Replied s (f a v).0 b (f a v).1.sent) e ((qf a).at v)
      rest (thrown what) v before e = e
      rest crash v before e = e

module _ {A : Type 0} {s : ℕ} {m : Action A} {g : A → Action Bool} where
  pub AnswersIf-bind : Quiet m → ((a : A) → AnswersIf s (g a)) → AnswersIf s (m >>= g)
  unfolding ◌>>=◌
  AnswersIf-bind qm qf = record { at = λ w. rest (m w).0 (m w).1 w.sent (qm.at w) }
    where
      rest :
          (r : Outcome A) (v : World) (before : List DbResponse)
          → v.sent ≡ before
          → RepliedIf s (Action.continue r g v).0 before (Action.continue r g v).1.sent
      rest (ok a) v before e = subst (λ b. RepliedIf s (g a v).0 b (g a v).1.sent) e ((qf a).at v)
      rest (thrown what) v before e = e
      rest crash v before e = e

module _ {s : ℕ} where
  pub Answers-if :
      (b : Bool) {m n : Action (Unit {0})}
      → Answers s m
      → Answers s n
      → Answers s (if b then m else n)
  Answers-if true am an = am
  Answers-if false am an = an

  pub AnswersIf-if :
      (b : Bool) {m n : Action Bool}
      → AnswersIf s m
      → AnswersIf s n
      → AnswersIf s (if b then m else n)
  AnswersIf-if true am an = am
  AnswersIf-if false am an = an

  pub AnswersIf-false : AnswersIf s (pure false)
  unfolding pure
  AnswersIf-false = record { at = λ w. refl }

  -- An answer, then `return true`.
  pub AnswersIf-true : {m : Action (Unit {0})} → Answers s m → AnswersIf s (m >>= λ _. pure true)
  unfolding ◌>>=◌
  AnswersIf-true {m} am = record { at = λ w. rest (m w).0 (m w).1 w.sent (am.at w) }
    where
      rest :
          (r : Outcome (Unit {0})) (v : World) (before : List DbResponse)
          → Replied s r before v.sent
          → RepliedIf s
              (Action.continue r (λ _. pure true) v).0
              before
              (Action.continue r (λ _. pure {A = Bool} true) v).1.sent
      rest (ok u) v before e = e
      rest (thrown what) v before e = e
      rest crash v before e = e

  -- `if (returned) return;` before an answer.
  pub Answers-unless :
      {m : Action Bool} {n : Action (Unit {0})}
      → AnswersIf s m
      → Answers s n
      → Answers s (m >>= λ b. if b then pure tt else n)
  unfolding ◌>>=◌
  Answers-unless {m} {n} am an = record { at = λ w. rest (m w).0 (m w).1 w.sent (am.at w) }
    where
      after : Bool → Action (Unit {0})
      after b = if b then pure tt else n

      rest :
          (r : Outcome Bool) (v : World) (before : List DbResponse)
          → RepliedIf s r before v.sent
          → Replied s (Action.continue r after v).0 before (Action.continue r after v).1.sent
      rest (ok true) v before e = e
      rest (ok false) v before e = subst (λ b. Replied s (n v).0 b (n v).1.sent) e (an.at v)
      rest (thrown what) v before e = e
      rest crash v before e = e

pub ruleset quiet_rules = (
  Quiet-pure, Quiet-throw, Quiet-undefined, Quiet-gets, Quiet-deref, Quiet-if, Quiet-try_catch,
  Quiet-record_call, Quiet-bind,
)

pub ruleset answer_rules = (
  quiet_rules, Answers-bind, Answers-if, AnswersIf-bind, AnswersIf-if, AnswersIf-false,
  AnswersIf-true, Answers-unless,
)
