-- ===== src/Core/Value/Via.antt =====
-- A struct whose methods go through its fields is as lawful as the tuple of the fields.
use ecs_compositor.Prelude.{◌≡◌, refl, ap, ◌∙◌, sym}
use ecs_compositor.Core.Error.{Result, ok, fail}
use ecs_compositor.Core.Value.{Value, Step, ReadBuf, WriteBuf, resume, ◌>>=◌, return}
use ecs_compositor.Core.Value.Law.{Fails, Format, Lawful}

abbrev pub on_ok : {S A B : Type 0} → (A → B) → Result A × S → Result B × S
on_ok f (ok a, s) = (ok (f a), s)
on_ok f (fail e, s) = (fail e, s)

-- Two fields read one after the other into `f a b`.
module _ {S A B C : Type 0} (m : Step S A) (k : Step S B) (f : A → B → C) where
  inner :
      (a : A) (r : Result B × S)
      → resume (λ b. return (f a b)) r
        ≡ on_ok (λ p. f p.0 p.1) (resume (λ b. return {A = A × B} (a, b)) r)
  inner a (ok b, s) = refl
  inner a (fail e, s) = refl

  outer :
      (r : Result A × S)
      → resume (λ a. k >>= λ b. return (f a b)) r
        ≡ on_ok (λ p. f p.0 p.1) (resume (λ a. k >>= λ b. return {A = A × B} (a, b)) r)
  outer (ok a, s) = inner a (k s)
  outer (fail e, s) = refl

  pub read_two :
      (s : S)
      → (m >>= λ a. k >>= λ b. return (f a b)) s
        ≡ on_ok (λ p. f p.0 p.1) ((m >>= λ a. k >>= λ b. return {A = A × B} (a, b)) s)
  read_two s = outer (m s)

-- Three fields, as two and a third.
module _ {S A B C D : Type 0} (m : Step S A) (k : Step S B) (l : Step S C) (f : A → B → C → D) where
  abbrev whole : A × (B × C) → D
  whole p = f p.0 p.1.0 p.1.1

  abbrev rest : Step S (B × C)
  rest = k >>= λ b. l >>= λ c. return (b, c)

  third :
      (a : A) (b : B) (r : Result C × S)
      → resume (λ c. return (f a b c)) r
        ≡ on_ok whole (
            resume
              (λ q. return {A = A × (B × C)} (a, q))
              (resume (λ c. return {A = B × C} (b, c)) r))
  third a b (ok c, s) = refl
  third a b (fail e, s) = refl

  middle :
      (a : A) (r : Result B × S)
      → resume (λ b. l >>= λ c. return (f a b c)) r
        ≡ on_ok whole (
            resume
              (λ q. return {A = A × (B × C)} (a, q))
              (resume (λ b. l >>= λ c. return {A = B × C} (b, c)) r))
  middle a (ok b, s) = third a b (l s)
  middle a (fail e, s) = refl

  first :
      (r : Result A × S)
      → resume (λ a. k >>= λ b. l >>= λ c. return (f a b c)) r
        ≡ on_ok whole (resume (λ a. rest >>= λ q. return {A = A × (B × C)} (a, q)) r)
  first (ok a, s) = middle a (k s)
  first (fail e, s) = refl

  pub read_three :
      (s : S)
      → (m >>= λ a. k >>= λ b. l >>= λ c. return (f a b c)) s
        ≡ on_ok whole ((m >>= λ a. rest >>= λ q. return {A = A × (B × C)} (a, q)) s)
  read_three s = first (m s)

-- The format of a struct `B` that is stored as the tuple `to b` is.
abbrev pub via_format :
    {A B : Type 0} → Format A → (B → A) → (B → Type 0) → (B → B → Type 0) → Format B
via_format F to IsValid Same = record {
  IsValid = IsValid;
  Same = Same;
  size = λ b. F.size (to b);
  extra = λ b. F.extra (to b);
  image = λ b old. F.image (to b) old;
  fds = λ b. F.fds (to b);
}

on_ok-Fails : {S A B : Type 0} (f : A → B) (r : Result A × S) → Fails r.0 → Fails (on_ok f r).0
on_ok-Fails f (ok a, s) (e, p) = cc
on_ok-Fails f (fail e, s) p = (e, refl)

module _ {A B : Type 0} {V : Value A} {F : Format A} (v : Lawful V F) (W : Value B) (to : B → A)
    (from : A → B) (IsValid : B → Type 0) (Same : B → B → Type 0)
    (same_fds : W.fd_count ≡ V.fd_count) (same_len : (b : B) → W.len b ≡ V.len (to b))
    (same_read : (s : ReadBuf) → W.read s ≡ on_ok from (V.read s))
    (same_write : (b : B) (s : WriteBuf) → W.write b s ≡ V.write (to b) s)
    (valid : (b : B) → IsValid b → F.IsValid (to b))
    (same : (b : B) (a : A) → IsValid b → F.Same (to b) a → Same b (from a)) where
  read_Fails : (s : ReadBuf) → Fails (V.read s).0 → Fails (W.read s).0
  read_Fails s h = rw (same_read s) (on_ok-Fails from (V.read s) h)

  pub via-Lawful : Lawful W (via_format F to IsValid Same)
  via-Lawful = record {
    length_image = λ b old k h. v.length_image (to b) old (valid b k) h;
    length_fds = λ b. v.length_fds (to b) ∙ sym same_fds;
    announces = λ b. same_len b ∙ v.announces (to b);
    writes = λ b w old more wf of mf k fits.
        same_write b _ ∙ v.writes (to b) w old more wf of mf (valid b k) fits;
    write_refused = λ b s k h. rw (same_write b s) (v.write_refused (to b) s (valid b k) h);
    reads = λ b old more mf k h.
        let (a, r, e) = v.reads (to b) old more mf (valid b k) h in
        (from a, same_read _ ∙ ap (on_ok from) r, same b a k e);
    read_refused =
        λ b old n mf k h lt. read_Fails _ (v.read_refused (to b) old n mf (valid b k) h lt);
    fds_refused =
        λ b old more n k h lt. read_Fails _ (v.fds_refused (to b) old more n (valid b k) h lt);
  }
