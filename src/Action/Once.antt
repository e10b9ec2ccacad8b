-- ===== src/Action/Once.antt =====
-- Actions that answer at most once, and the answer to a task that threw.
use game_database_server.Prelude.{
  ℕ, ◌≡◌, refl, ◌∙◌, subst, ◌⊎◌, inl, inr, Bool, true, false, List, ◌∷◌, String, if◌then◌else◌,
}
use game_database_server.Packet.{DbResponse}
use game_database_server.Action
use game_database_server.Action.{World, Outcome, ok, thrown, crash, Action, try_catch, ◌>>=◌}
use game_database_server.Action.Traffic.{Quiet, Answers, Replied}

-- At most one response, and only to the socket.
abbrev pub AtMostOne : ℕ → List DbResponse → List DbResponse → Type 0
AtMostOne s before after =
    (after ≡ before) ⊎ ((r : DbResponse) × (r.client_socket ≡ s) × (after ≡ r ∷ before))

pub record AnswersOnceAtMost (s : ℕ) (m : Action (Unit {0})) : Type 0 where
  pub at : (w : World) → AtMostOne s w.sent (m w).1.sent
  pub thrown_quiet : (w : World) (what : String) → (m w).0 ≡ thrown what → (m w).1.sent ≡ w.sent

pub Quiet-AnswersOnceAtMost : {s : ℕ} {m : Action (Unit {0})} → Quiet m → AnswersOnceAtMost s m
Quiet-AnswersOnceAtMost qm = record { at = λ w. inl (qm.at w); thrown_quiet = λ w what h. qm.at w }

pub Answers-AnswersOnceAtMost :
    {s : ℕ} {m : Action (Unit {0})} → Answers s m → AnswersOnceAtMost s m
Answers-AnswersOnceAtMost {s} {m} am = record {
  at = λ w. replied (m w).0 w.sent (m w).1.sent (am.at w);
  thrown_quiet = λ w what h. quiet (m w).0 w.sent (m w).1.sent (am.at w) what h;
}
  where
    replied :
        (r : Outcome (Unit {0})) (before after : List DbResponse)
        → Replied s r before after
        → AtMostOne s before after
    replied (ok u) before after e = inr e
    replied (thrown what) before after e = inl e
    replied crash before after e = inl e

    quiet :
        (r : Outcome (Unit {0})) (before after : List DbResponse)
        → Replied s r before after
        → (what : String) → r ≡ thrown what
        → after ≡ before
    quiet (ok u) before after e what h = cc
    quiet (thrown _) before after e what h = e
    quiet crash before after e what h = e

pub AnswersOnceAtMost-bind :
    {A : Type 0} {s : ℕ} {m : Action A} {f : A → Action (Unit {0})}
    → Quiet m
    → ((a : A) → AnswersOnceAtMost s (f a))
    → AnswersOnceAtMost s (m >>= f)
unfolding ◌>>=◌
AnswersOnceAtMost-bind {A} {s} {m} {f} qm af = record {
  at = λ w. rest (m w).0 (m w).1 w.sent (qm.at w);
  thrown_quiet = λ w what h. quiet (m w).0 (m w).1 w.sent (qm.at w) what h;
}
  where
    rest :
        (r : Outcome A) (v : World) (before : List DbResponse)
        → v.sent ≡ before
        → AtMostOne s before (Action.continue r f v).1.sent
    rest (ok a) v before e = subst (λ b. AtMostOne s b (f a v).1.sent) e ((af a).at v)
    rest (thrown what) v before e = inl e
    rest crash v before e = inl e

    quiet :
        (r : Outcome A) (v : World) (before : List DbResponse)
        → v.sent ≡ before
        → (what : String) → (Action.continue r f v).0 ≡ thrown what
        → (Action.continue r f v).1.sent ≡ before
    quiet (ok a) v before e what h = (af a).thrown_quiet v what h ∙ e
    quiet (thrown _) v before e what h = e
    quiet crash v before e what h = e

pub AnswersOnceAtMost-if :
    {s : ℕ} (b : Bool) {m n : Action (Unit {0})}
    → AnswersOnceAtMost s m
    → AnswersOnceAtMost s n
    → AnswersOnceAtMost s (if b then m else n)
AnswersOnceAtMost-if true am an = am
AnswersOnceAtMost-if false am an = an

-- An error response to a task that threw, which has sent nothing itself.
pub caught-AtMostOne :
    {s : ℕ} {m : Action (Unit {0})} {h : String → Action (Unit {0})} (w : World)
    → AnswersOnceAtMost s m
    → ((what : String) → Answers s (h what))
    → AtMostOne s w.sent (try_catch m h w).1.sent
unfolding try_catch
caught-AtMostOne {s} {m} {h} w am ah = caught (m w).0 (m w).1 w.sent (am.at w) (am.thrown_quiet w)
  where
    caught :
        (r : Outcome (Unit {0})) (v : World) (before : List DbResponse)
        → AtMostOne s before v.sent
        → ((what : String) → r ≡ thrown what → v.sent ≡ before)
        → AtMostOne s before (Action.handle r h v).1.sent
    caught (ok u) v before e q = e
    caught (thrown what) v before e q =
        subst (λ b. AtMostOne s b (h what v).1.sent) (q what refl)
          ((Answers-AnswersOnceAtMost (ah what)).at v)
    caught crash v before e q = e

pub caught-once :
    {s : ℕ} {m : Action (Unit {0})} {h : String → Action (Unit {0})} (w : World)
    → Answers s m
    → ((what : String) → Answers s (h what))
    → Replied s (try_catch m h w).0 w.sent (try_catch m h w).1.sent
unfolding try_catch
caught-once {s} {m} {h} w am ah = caught (m w).0 (m w).1 w.sent (am.at w)
  where
    caught :
        (r : Outcome (Unit {0})) (v : World) (before : List DbResponse)
        → Replied s r before v.sent
        → Replied s (Action.handle r h v).0 before (Action.handle r h v).1.sent
    caught (ok u) v before e = e
    caught (thrown what) v before e =
        subst (λ b. Replied s (h what v).0 b (h what v).1.sent) e ((ah what).at v)
    caught crash v before e = e
