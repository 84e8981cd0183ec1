-- ===== src/Platform/Postgres.antt =====
-- What the gateway asks of Postgres, and the documented meaning of each query on the rows of the
-- table `users` (internal/db/migrations).
use secure_auth_gateway.Prelude.{
  ℕ, Option, none, some, List, [], ◌∷◌, ◌++◌, Text, codes, text_eq, length, ltb, if◌then◌else◌,
}

pub record User : Type 0 where
  pub id : Text
  pub email : Text
  pub password_hash : Text
  pub created_at : ℕ
  pub role : Text

pub data Query : Type 0 where
  email_exists : Text → Query
  find_user : Text → Query
  insert_user : Text → Text → Query
  find_role : Text → Query

-- `no_rows` is `pgx.ErrNoRows`, `unique_violation` the code 23505; `failed` is any other error.
pub data Answer : Type 0 where
  one : Answer
  user : User → Answer
  role : Text → Answer
  no_rows unique_violation failed : Answer

unfoldable pub find_email : Text → List User → Option User
find_email e [] = none
find_email e (u ∷ us) = if text_eq u.email e then some u else find_email e us

unfoldable pub find_id : Text → List User → Option User
find_id i [] = none
find_id i (u ∷ us) = if text_eq u.id i then some u else find_id i us

abbrev pub exists_answer : Option User → Answer
exists_answer none = no_rows
exists_answer (some u) = one

abbrev pub user_answer : Option User → Answer
user_answer none = no_rows
user_answer (some u) = user u

abbrev pub role_answer : Option User → Answer
role_answer none = no_rows
role_answer (some u) = role u.role

-- `email VARCHAR(255) UNIQUE NOT NULL`, and `id` the primary key.
abbrev pub max_email : ℕ
max_email = 255

abbrev pub inserted : User → Option User → Option User → List User → Answer × List User
inserted u none none rows = (user u, rows ++ u ∷ [])
inserted u (some _) _ rows = (unique_violation, rows)
inserted u none (some _) rows = (unique_violation, rows)

-- The row that `INSERT INTO users (email, password_hash)` makes: the rest comes from defaults.
abbrev pub new_user : ℕ → Text → Text → Text → User
new_user now id email hash = record {
  id = id;
  email = email;
  password_hash = hash;
  created_at = now;
  role = codes "user";
}

unfoldable pub respond : ℕ → Text → Query → List User → Answer × List User
respond now id (email_exists e) rows = (exists_answer (find_email e rows), rows)
respond now id (find_user e) rows = (user_answer (find_email e rows), rows)
respond now id (find_role i) rows = (role_answer (find_id i rows), rows)
respond now id (insert_user e h) rows =
    if ltb max_email (length e)
    then (failed, rows)
    else inserted (new_user now id e h) (find_email e rows) (find_id id rows) rows
