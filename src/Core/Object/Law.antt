-- ===== src/Core/Object/Law.antt =====
-- The laws of object ids.
use ecs_compositor.Prelude.{ℕ, ◌<◌, ◌^◌, ◌≡◌, refl, ap, ◌∙◌, Option, none, some, arith, ne→==}
use ecs_compositor.Core.Error.{ok, fail}
use ecs_compositor.Core.Value.{Step, ReadBuf, read_u32, return, ◌>>=◌}
use ecs_compositor.Core.Value.Law.{bind-ok, bind-fail, Format, Lawful}
use ecs_compositor.Core.Value.Word.{word_format, word-Lawful}
use ecs_compositor.Core.Int.{ok_or}
use ecs_compositor.Core.Object.{
  Object, NewId, nonzero, from_id, read_id, write_id, object, option_object, new_id,
  optional_object, optional_id, read_id_error, write_id_error, null_object, null_new_id,
}

-- A `NonZero<u32>`.
abbrev pub IsId : ℕ → Type 0
IsId n = (0 < n) × (n < 2 ^ 32)

abbrev pub object_format : Format Object
object_format = word_format (λ o. IsId o.id) (λ o. o.id)

abbrev pub new_id_format : Format NewId
new_id_format = word_format (λ n. IsId n.id) (λ n. n.id)

abbrev pub IsOptionalId : Option Object → Type 0
IsOptionalId none = Unit
IsOptionalId (some o) = IsId o.id

abbrev pub option_object_format : Format (Option Object)
option_object_format = word_format IsOptionalId optional_id

pub nonzero-some : (n : ℕ) → 0 < n → nonzero n ≡ some n
unfolding nonzero
nonzero-some n h = rw (ne→== n 0 (omega arith))

read_id-ok :
    (n : ℕ) (s s' : ReadBuf)
    → read_u32 read_id_error s ≡ (ok n, s')
    → read_id s ≡ (ok (nonzero n), s')
unfolding read_id
read_id-ok n s s' e = bind-ok (read_u32 read_id_error) (λ w. return (nonzero w)) e

read_id-fail :
    (s : ReadBuf)
    → read_u32 read_id_error s ≡ (fail read_id_error, s)
    → read_id s ≡ (fail read_id_error, s)
unfolding read_id
read_id-fail s e = bind-fail (read_u32 read_id_error) (λ w. return (nonzero w)) e

to_object : Option ℕ → Step ReadBuf Object
to_object found = ok_or found null_object >>= λ id. return (from_id id)

to_new_id : Option ℕ → Step ReadBuf NewId
to_new_id found = ok_or found null_new_id >>= λ id. return (record { id = id })

pub object-Lawful : Lawful object object_format
unfolding object write_id to_object ok_or
object-Lawful =
    word-Lawful object (λ o. IsId o.id) (λ o. o.id) read_id_error write_id_error refl (λ a. refl)
      (λ o v. v.1)
      (λ o s s' v e.
        bind-ok read_id to_object (read_id-ok o.id s s' e)
        ∙ ap (λ found. to_object found s') (nonzero-some o.id v.0))
      (λ s e. bind-fail read_id to_object (read_id-fail s e)) (λ o s. refl)

pub new_id-Lawful : Lawful new_id new_id_format
unfolding new_id write_id to_new_id ok_or
new_id-Lawful =
    word-Lawful new_id (λ n. IsId n.id) (λ n. n.id) read_id_error write_id_error refl (λ a. refl)
      (λ n v. v.1)
      (λ n s s' v e.
        bind-ok read_id to_new_id (read_id-ok n.id s s' e)
        ∙ ap (λ found. to_new_id found s') (nonzero-some n.id v.0))
      (λ s e. bind-fail read_id to_new_id (read_id-fail s e)) (λ n s. refl)

optional_id-lt : (o : Option Object) → IsOptionalId o → optional_id o < 2 ^ 32
optional_id-lt none v = omega arith
optional_id-lt (some o) v = v.1

optional_round :
    (o : Option Object) → IsOptionalId o → optional_object (nonzero (optional_id o)) ≡ o
unfolding nonzero
optional_round none v = refl
optional_round (some o) v = rw (ne→== o.id 0 (omega arith))

-- A null object travels as the id 0, which no object has.
pub option_object-Lawful : Lawful option_object option_object_format
unfolding option_object write_id
option_object-Lawful =
    word-Lawful option_object IsOptionalId optional_id read_id_error write_id_error refl (λ a. refl)
      optional_id-lt
      (λ o s s' v e.
        bind-ok read_id (λ found. return (optional_object found))
          (read_id-ok (optional_id o) s s' e)
        ∙ ap (λ o. (ok o, s')) (optional_round o v))
      (λ s e. bind-fail read_id (λ found. return (optional_object found)) (read_id-fail s e))
      (λ o s. refl)
