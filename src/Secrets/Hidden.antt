-- ===== src/Secrets/Hidden.antt =====
-- hub/internal/store/secrets.go: a host learns nothing of the secrets it is not granted, neither of
-- their text nor that they are there.
use homedash.Prelude.{
  ℕ, String, Bool, true, false, not, ◌&&◌, Option, none, some, List, [], ◌∷◌, ◌==◌, str_eq,
  str_eq_iff, any, keep, ◌≡◌, refl, ap, ◌∙◌, arith, sym, subst, Bool-cases, inl, inr,
}
use homedash.Prelude.Lists.{length, All}
use homedash.Prelude.Int.{ℤ}
use homedash.Prelude.Text.{trim_space}
use homedash.Secrets.{
  Row, Store, Chance, Cipher, Answer, no_secret, holds, secrets_key, put_row, find_row,
  delete_secret, parse_ids, granted, is_valid_name, secrets, secret_names_for, sealed_row,
  store_sealed, set_if, set_secret, read_row, read_secret,
}
use homedash.Secrets.Sealed.{find_row-put_row}
use homedash.Secrets.Ids.{IsInt64, parse_ids-join_ids}

pub data Write : Type 0 where
  set : ℕ → Chance → String → String → List ℤ → Write
  delete : String → Write

unfoldable pub perform : Cipher → Store → List Write → Store
perform C st [] = st
perform C st (set now ch name text hosts ∷ ws) =
    perform C (set_secret C now ch st name text hosts).0 ws
perform C st (delete name ∷ ws) = perform C (delete_secret st name) ws

module _ (id : ℤ) where
  abbrev pub shown : Row → Bool
  shown r = granted (parse_ids r.hosts) id

  -- Whether the host is granted a secret of this name.
  abbrev pub shows : String → List Row → Bool
  shows n = any (λ r. str_eq r.name n && shown r)

  names : List Row → List String
  unfolding secret_names_for secrets
  names rows = secret_names_for (record { key_file = holds []; rows = rows }) id

  names-put_row :
      (r : Row) (rows : List Row)
      → shown r ≡ false
      → shows r.name rows ≡ false
      → names (put_row r rows) ≡ names rows
  unfolding names secret_names_for secrets put_row
  names-put_row r [] h e = ground arith
  names-put_row r (x ∷ rows) h e = let i = names-put_row r rows h in ground arith

  names-keep :
      (n : String) (rows : List Row)
      → shows n rows ≡ false
      → names (keep (λ x. not (str_eq x.name n)) rows) ≡ names rows
  unfolding names secret_names_for secrets
  names-keep n [] e = refl
  names-keep n (x ∷ rows) e = let i = names-keep n rows in ground arith

  shows-put_row :
      (m : String) (r : Row) (rows : List Row)
      → shown r ≡ false
      → shows m rows ≡ false
      → shows m (put_row r rows) ≡ false
  unfolding put_row
  shows-put_row m r [] h e = ground arith
  shows-put_row m r (x ∷ rows) h e = let i = shows-put_row m r rows h in ground arith

  shows-keep :
      (m n : String) (rows : List Row)
      → shows m rows ≡ false
      → shows m (keep (λ x. not (str_eq x.name n)) rows) ≡ false
  shows-keep m n [] e = refl
  shows-keep m n (x ∷ rows) e = let i = shows-keep m n rows in ground arith

find_row-keep :
    (m n : String) (rows : List Row)
    → str_eq n m ≡ false
    → find_row m (keep (λ x. not (str_eq x.name n)) rows) ≡ find_row m rows
unfolding find_row
find_row-keep m n [] e = refl
find_row-keep m n (x ∷ rows) e =
    let i = find_row-keep m n rows e in
    let a = str_eq_iff x.name m in
    let b = str_eq_iff x.name n in let c = str_eq_iff n m in ground arith

module _ (C : Cipher) (id : ℤ) where
  abbrev pub answer : Chance → Store → String → Answer
  answer later st m = (read_secret C later st m id).1

  answer_of_hidden :
      (later : Chance) (st : Store) (m : String) (rows : List Row)
      → shows id m rows ≡ false
      → (read_row C later st m id (find_row m rows)).1 ≡ no_secret
  unfolding find_row read_row
  answer_of_hidden later st m [] e = refl
  answer_of_hidden later st m (x ∷ rows) e =
      let i = answer_of_hidden later st m rows in ground arith

  -- Two states that the host cannot tell apart.
  pub record Alike (st other : Store) : Type 0 where
    pub list : secret_names_for st id ≡ secret_names_for other id
    pub readings : (later : Chance) (m : String) → answer later st m ≡ answer later other m

  module _ (st : Store) (n : String) (rows : List Row) where
    row_answer :
        (later : Chance) (m : String) (o : Option Row)
        → (read_row C later (record st { rows = rows }) m id o).1 ≡ (read_row C later st m id o).1
    unfolding read_row
    row_answer later m none = refl
    row_answer later m (some r) = ground arith

    -- The table changed at a name that shows the host nothing, before or after.
    Alike-rows :
        secret_names_for (record st { rows = rows }) id ≡ secret_names_for st id
        → ((m : String) → str_eq n m ≡ false → find_row m rows ≡ find_row m st.rows)
        → shows id n rows ≡ false
        → shows id n st.rows ≡ false
        → Alike (record st { rows = rows }) st
    unfolding read_secret
    Alike-rows l same h k = record {
      list = l;
      readings = λ later m. elim (Bool-cases (str_eq n m)) [
        | inl e ↦
            let q = (str_eq_iff n m).0 e in
            answer_of_hidden later (record st { rows = rows }) m rows
              (subst (λ x. shows id x rows ≡ false) q h)
            ∙ sym
                (answer_of_hidden later st m st.rows (subst (λ x. shows id x st.rows ≡ false) q k))
        | inr e ↦
            ap (λ o. (read_row C later (record st { rows = rows }) m id o).1) (same m e)
            ∙ row_answer later m (find_row m st.rows)
      ];
    }

  Alike-refl : (st : Store) → Alike st st
  Alike-refl st = record { list = refl; readings = λ later m. refl }

  Alike-trans : (st mid other : Store) → Alike st mid → Alike mid other → Alike st other
  Alike-trans st mid other a b = record {
    list = a.list ∙ b.list;
    readings = λ later m. a.readings later m ∙ b.readings later m;
  }

  delete-Alike :
      (st : Store) (n : String) → shows id n st.rows ≡ false → Alike (delete_secret st n) st
  unfolding delete_secret names
  delete-Alike st n h =
      Alike-rows st n (keep (λ x. not (str_eq x.name n)) st.rows) (names-keep id n st.rows h)
        (λ m e. find_row-keep m n st.rows e) (shows-keep id n n st.rows h) h

  put-Alike :
      (st : Store) (r : Row)
      → shown id r ≡ false
      → shows id r.name st.rows ≡ false
      → Alike (record st { rows = put_row r st.rows }) st
  unfolding names
  put-Alike st r s h =
      Alike-rows st r.name (put_row r st.rows) (names-put_row id r st.rows s h)
        (λ m e. find_row-put_row m r st.rows e) (shows-put_row id r.name r st.rows s h) h

  -- A write of a secret that the host is not granted, before or after.
  abbrev pub Unseen : List Row → Write → Type 0
  Unseen rows (set now ch name text hosts) =
      All IsInt64 hosts × (granted hosts id ≡ false) × (shows id (trim_space name) rows ≡ false)
  Unseen rows (delete name) = shows id name rows ≡ false

  -- What a write leaves: the key, and what the host is shown under each name.
  record Kept (st later : Store) : Type 0 where
    pub key : later.key_file ≡ st.key_file
    pub hidden : (m : String) → shows id m st.rows ≡ false → shows id m later.rows ≡ false
    pub alike : Alike later st

  module _ (key : List ℕ) (l : length key ≡ 32) where
    set_if-Kept :
        (now : ℕ) (ch : Chance) (st : Store) (n text : String) (hosts : List ℤ) (valid : Bool)
        → st.key_file ≡ holds key
        → All IsInt64 hosts
        → granted hosts id ≡ false
        → shows id n st.rows ≡ false
        → Kept st (set_if C now ch st n text hosts valid).0
    unfolding set_if store_sealed secrets_key sealed_row
    set_if-Kept now ch st n text hosts false k small g h = record {
      key = refl;
      hidden = λ m e. e;
      alike = Alike-refl st;
    }
    set_if-Kept now ch st n text hosts true k small g h =
        let r = sealed_row C now ch n text hosts key in
        let s : shown id r ≡ false = rw (parse_ids-join_ids hosts small) g in
        let e : (length key == 32) ≡ true = ground arith in
        let q : secrets_key st.key_file ch ≡ (st.key_file, some key) = rw (k, e) refl in
        subst (λ p. Kept st (store_sealed C now ch n text hosts st.rows p).0) (sym q)
          (record {
            key = refl;
            hidden = λ m h. shows-put_row id m r st.rows s h;
            alike = put-Alike st r s h;
          })

    Unseen-later :
        (st later : Store) (w : Write) → Kept st later → Unseen st.rows w → Unseen later.rows w
    Unseen-later st later (set now ch name text hosts) k (a, b, c) =
        (a, b, k.hidden (trim_space name) c)
    Unseen-later st later (delete name) k u = k.hidden name u

    AllUnseen-later :
        (st later : Store) (ws : List Write)
        → Kept st later
        → All (Unseen st.rows) ws
        → All (Unseen later.rows) ws
    AllUnseen-later st later [] k u = tt
    AllUnseen-later st later (w ∷ ws) k (u, us) =
        (Unseen-later st later w k u, AllUnseen-later st later ws k us)

    delete-Kept :
        (st : Store) (n : String) → shows id n st.rows ≡ false → Kept st (delete_secret st n)
    unfolding delete_secret
    delete-Kept st n h = record {
      key = refl;
      hidden = λ m e. shows-keep id m n st.rows e;
      alike = delete-Alike st n h;
    }

-- Any SetSecrets and DeleteSecrets of names under which a host is granted nothing, none of which
-- grants it anything, change neither its list of names nor the answer of any reading it makes.
-- The key file holds its 32 bytes, and the grants are in the range of an int64.
pub perform-Alike :
    (C : Cipher) (id : ℤ) (key : List ℕ) (st : Store) (ws : List Write)
    → length key ≡ 32
    → st.key_file ≡ holds key
    → All (Unseen C id st.rows) ws
    → Alike C id (perform C st ws) st
unfolding perform set_secret
perform-Alike C id key st [] l k u = Alike-refl C id st
perform-Alike C id key st (set now ch name text hosts ∷ ws) l k ((a, b, c), us) =
    let next = (set_secret C now ch st name text hosts).0 in
    let kept =
      set_if-Kept C id key l now ch st (trim_space name) text hosts
        (is_valid_name (trim_space name)) k a b c in
    Alike-trans C id (perform C next ws) next st
      (perform-Alike C id key next ws l (kept.key ∙ k)
        (AllUnseen-later C id key l st next ws kept us))
      (kept.alike)
perform-Alike C id key st (delete name ∷ ws) l k (u, us) =
    let next = delete_secret st name in
    let kept = delete-Kept C id key l st name u in
    Alike-trans C id (perform C next ws) next st
      (perform-Alike C id key next ws l (kept.key ∙ k)
        (AllUnseen-later C id key l st next ws kept us))
      (kept.alike)
