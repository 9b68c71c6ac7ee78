-- ===== src/Auth/Users/Initial.antt =====
-- The first start and the later ones, for LoadOrInitialize of auth/user_store.go.
use echolist_backend.Base.{
  Bool, true, Option, some, List, [], ◌∷◌, Bytes, str_eq_refl, All, ◌≡◌, ◌≢◌, ◌⊎◌, refl, sym, ap,
  ◌∙◌, arith, Option-cases, inl, inr,
}
use echolist_backend.Base.Action.{ok}
use echolist_backend.Auth.Users.{
  User, Libraries, StoreFile, absent, unreadable, holds, State, authenticate, load_or_initialize,
}

-- What the program relies on in bcrypt and encoding/json. `is_text` holds of valid UTF-8, which JSON
-- carries unchanged.
pub record LibraryLaws (libs : Libraries) : Type 0 where
  pub is_text : Bytes → Bool
  pub hash_is_text :
      (password hash : Bytes)
      → libs.generate_from_password password ≡ some hash
      → is_text hash ≡ true
  pub compare-generate :
      (password hash : Bytes)
      → libs.generate_from_password password ≡ some hash
      → libs.compare_hash_and_password hash password ≡ true
  pub unmarshal-marshal :
      (users : List User) (text : Bytes)
      → All (λ (u : User). (is_text u.username ≡ true) × (is_text u.password_hash ≡ true)) users
      → libs.marshal_indent users ≡ some text
      → libs.unmarshal text ≡ some users

abbrev pub before : List User → StoreFile → Bool → Option StoreFile → State
before users file mkdir_succeeds write_fault = record {
  users = users;
  disk = record { file = file; mkdir_succeeds = mkdir_succeeds; write_fault = write_fault };
}

abbrev user_of : Bytes → Bytes → User
user_of username hash = record { username = username; password_hash = hash }

module _ (libs : Libraries) where
  initialize-cases :
      (path username password : Bytes) (users : List User) (m : Bool) (w : Option StoreFile)
      (s : State)
      → load_or_initialize libs path username password (before users absent m w) ≡ (ok tt, s)
      → (hash : Bytes) × (text : Bytes) × (libs.generate_from_password password ≡ some hash)
        × (libs.marshal_indent (user_of username hash ∷ []) ≡ some text)
        × (s ≡ before (user_of username hash ∷ []) (holds text) m w)
  unfolding load_or_initialize
  initialize-cases path username password users m w s h =
      elim (Option-cases (libs.generate_from_password password)) [
        | inl unhashed ↦ ground arith
        | inr (hash, hashed) ↦
            elim (Option-cases (libs.marshal_indent (user_of username hash ∷ []))) [
              | inl unprinted ↦ ground arith
              | inr (text, printed) ↦ (hash, text, hashed, printed, ground arith)
            ]
      ]

  load_or_initialize-load :
      (path username password text : Bytes) (users stored : List User) (m : Bool)
      (w : Option StoreFile)
      → libs.unmarshal text ≡ some stored
      → load_or_initialize libs path username password (before users (holds text) m w)
        ≡ (ok tt, before stored (holds text) m w)
  unfolding load_or_initialize
  load_or_initialize-load path username password text users stored m w h = ground arith

  authenticate-only :
      (username password hash : Bytes)
      → libs.compare_hash_and_password hash password ≡ true
      → authenticate libs (user_of username hash ∷ []) username password
        ≡ ok (user_of username hash)
  unfolding authenticate
  authenticate-only username password hash h = ground (arith, str_eq_refl username)

  -- A first start that returns no error leaves one user, who can log in with the default name and
  -- password; and every later start from the file that it wrote, whatever its defaults, loads this
  -- same user.
  pub load_or_initialize-first :
      (laws : LibraryLaws libs) (path username password : Bytes) (users : List User) (m : Bool)
      (w : Option StoreFile) (s : State) (username' password' : Bytes) (users' : List User)
      (m' : Bool) (w' : Option StoreFile)
      → laws.is_text username ≡ true
      → load_or_initialize libs path username password (before users absent m w) ≡ (ok tt, s)
      → (admin : User) × (s.users ≡ admin ∷ [])
        × (admin.username ≡ username)
        × (authenticate libs s.users username password ≡ ok admin)
        × (load_or_initialize libs path username' password' (before users' s.disk.file m' w')
            ≡ (ok tt, before (admin ∷ []) s.disk.file m' w'))
  load_or_initialize-first laws path username password users m w s username' password' users' m' w'
        text h =
      let (hash, printed, hashed, marshals, left) =
        initialize-cases path username password users m w s h in
      let loads =
        laws.unmarshal-marshal (user_of username hash ∷ []) printed
          ((text, laws.hash_is_text password hash hashed), tt) marshals in
      (
        user_of username hash,
        ap (λ t. t.users) left,
        refl,
        ap (λ t. authenticate libs t.users username password) left
            ∙ authenticate-only username password hash (laws.compare-generate password hash hashed),
        ap (λ t. load_or_initialize libs path username' password' (before users' t.disk.file m' w'))
              left
            ∙ load_or_initialize-load path username' password' printed users'
                (user_of username hash ∷ []) m' w' loads
            ∙ ap (λ t. (ok tt, before (user_of username hash ∷ []) t.disk.file m' w')) (sym left),
      )

  -- A store file that is there, readable or not, is never written; and the users change only if
  -- its text is a list of users, to that list.
  pub load_or_initialize-present :
      (path username password : Bytes) (users : List User) (file : StoreFile) (m : Bool)
      (w : Option StoreFile)
      → file ≢ absent
      → ((load_or_initialize libs path username password (before users file m w)).1.disk
          ≡ (before users file m w).disk)
        × (((load_or_initialize libs path username password (before users file m w)).1.users
              ≡ users)
            ⊎ ((text : Bytes) × (file ≡ holds text)
                × (libs.unmarshal text
                    ≡ some
                        (load_or_initialize libs path username password
                          (before users file m w)).1.users)))
  unfolding load_or_initialize
  load_or_initialize-present path username password users absent m w h = ground (arith, h refl)
  load_or_initialize-present path username password users unreadable m w h = ground arith
  load_or_initialize-present path username password users (holds text) m w h =
      elim (Option-cases (libs.unmarshal text)) [
        | inl malformed ↦ ground arith
        | inr (stored, loads) ↦
            ground
              (arith, load_or_initialize-load path username password text users stored m w loads)
      ]
