-- ===== src/Stanza/Writes.antt =====
-- Steps of the rendering of xmpp-stanza.c, each against the text that it adds to what is written.
use imcore.Prelude.{Bool, if◌then◌else◌, ℕ, ◌≡◌, refl, sym, ap, ◌∙◌, true, false}
use imcore.Prelude.{
  List, [], ◌++◌, append_assoc, append-nil, Option, Run, ok, fault, ◌>>=◌, >>=-assoc,
}
use imcore.Stanza.Pen.{Pen, emit, after}
use imcore.Stanza.Emit.{emit-after}
use imcore.Stanza.Render.{Answer, value, error, pass, on_value, emitted}
use imcore.Stanza.Text.{Text, followed}

module _ {ℓ κ} {A : Type ℓ} {B : Type κ} where
  -- A result that is a value comes from two values.
  pub on_value-value :
      (m : Run (Answer A)) (f : A → Run (Answer B)) (b : B)
      → on_value m f ≡ ok (value b)
      → (a : A) × (m ≡ ok (value a)) × (f a ≡ ok (value b))
  unfolding on_value pass
  on_value-value (ok (value a)) f b e = (a, refl, e)
  on_value-value (ok (error c)) f b e = absurd (cc)
  on_value-value (fault why) f b e = absurd (cc)

  pub on_value_run {μ} :
      {C : Type μ} (m : Run C) (g : C → Run (Answer A)) (f : A → Run (Answer B))
      → on_value (m >>= g) f ≡ (m >>= λ c. on_value (g c) f)
  unfolding on_value pass
  on_value_run (ok c) g f = refl
  on_value_run (fault why) g f = refl

pub value-injective {ℓ} : {A : Type ℓ} {a b : A} → ok (value a) ≡ ok (value b) → a ≡ b
value-injective e = cc

module _ (buf : List ℕ) (ptr : Option ℕ) (size : ℕ) where
  -- The step adds the text `m` to what is written, if there is one.
  abbrev pub Writes : (Pen → Run (Answer Pen)) → Text → Type 0
  Writes r m =
      (t u : List ℕ)
      → m ≡ ok (value u)
      → (after buf ptr size t >>= r) ≡ (after buf ptr size (t ++ u) >>= λ p. ok (value p))

  -- What follows a step follows its text.
  pub then_step {ℓ} :
      {C : Type ℓ} (r : Pen → Run (Answer Pen)) (m : Text) (f : Pen → Run (Answer C)) (t u : List ℕ)
      → Writes r m
      → m ≡ ok (value u)
      → (after buf ptr size t >>= λ p. on_value (r p) f) ≡ (after buf ptr size (t ++ u) >>= f)
  then_step r m f t u w e =
      sym (on_value_run (after buf ptr size t) r f)
      ∙ ap (λ q. on_value q f) (w t u e)
      ∙ on_value_run (after buf ptr size (t ++ u)) (λ p. ok (value p)) f
      ∙ unfold on_value pass in refl

  pub Writes-emitted : (u : List ℕ) → Writes (λ p. emitted size p u) (ok (value u))
  unfolding emitted
  Writes-emitted u t v e = rw (← value-injective e) (
      sym (>>=-assoc (after buf ptr size t) (λ p. emit size p u) (λ p. ok (value p)))
      ∙ ap (λ (m : Run Pen). m >>= λ p. ok (value p)) (emit-after buf ptr size t u))

  pub no_step : Writes (λ p. ok (value p)) (ok (value []))
  no_step t u e = rw (← value-injective e, append-nil t) refl

  pub if_step :
      (b : Bool) (r : Pen → Run (Answer Pen)) (m : Text)
      → Writes r m
      → Writes (λ p. if b then r p else ok (value p)) (if b then m else ok (value []))
  if_step true r m w = w
  if_step false r m w = no_step

  pub Writes-followed :
      (r q : Pen → Run (Answer Pen)) (m n : Text)
      → Writes r m
      → Writes q n
      → Writes (λ p. on_value (r p) q) (followed m n)
  unfolding followed
  Writes-followed r q m n w z t u e =
      let (a, ea, e1) = on_value-value m _ u e in
      let (b, eb, e2) = on_value-value n _ u e1 in
      then_step r m q t a w ea
      ∙ z (t ++ a) b eb
      ∙ ap (λ (v : List ℕ). after buf ptr size v >>= λ p. ok (value p))
          (append_assoc t a b ∙ ap (λ (v : List ℕ). t ++ v) (value-injective e2))

  -- A step behind a run that does not touch the pen.
  pub behind_step {ℓ} :
      {C : Type ℓ} (g : Run C) (r : Pen → C → Run (Answer Pen)) (m : C → Text)
      → ((c : C) → Writes (λ p. r p c) (m c))
      → Writes (λ p. g >>= r p) (g >>= m)
  behind_step (ok c) r m w t u e = w c t u e
  behind_step (fault why) r m w t u e = absurd (cc)
