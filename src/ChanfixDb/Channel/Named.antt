-- ===== src/ChanfixDb/Channel/Named.antt =====
-- The names of the channels of the database, and the record that chanfixdb_channel_create makes.
use efnet_services.Common.{
  ℕ, ◌≡◌, refl, ◌∙◌, Bool, true, false, ◌&&◌, ◌==◌, List, All, All-zip, eq→==, ==→eq,
}
use efnet_services.Run.{npos, Text}
use efnet_services.ChanfixDb.Store.{ChanfixDb, Chan, Platform}
use efnet_services.ChanfixDb.Hash.{hash_compute_channel}
use efnet_services.ChanfixDb.Channel.{is_chan, new_chan}

module _ (calls : Platform) where
  -- The hash of the record is that of its name.
  abbrev pub IsHashed : Chan → Type 0
  IsHashed c = c.hashv ≡ hash_compute_channel calls.to_lower c.name

  module _ (name : Text) where
    -- A channel with the name that is asked for
    abbrev pub HasName : Chan → Type 0
    HasName c =
        (c.hashv ≡ hash_compute_channel calls.to_lower name) × (calls.same_text name c.name ≡ true)

    -- A channel whose name has another hash, or is another one
    abbrev pub LacksName : Chan → Type 0
    LacksName c =
        hash_compute_channel calls.to_lower c.name ≡ hash_compute_channel calls.to_lower name
        → calls.same_text name c.name ≡ false

    both : (a b : Bool) → (a && b) ≡ true → (a ≡ true) × (b ≡ true)
    both true true e = (refl, refl)
    both true false e = cc
    both false b e = cc

    pub is_chan-HasName :
        (db : ChanfixDb) (c : ℕ)
        → is_chan calls db name (hash_compute_channel calls.to_lower name) c ≡ true
        → HasName (db.chan c)
    is_chan-HasName db c e =
        let (h, s) =
          both ((db.chan c).hashv == hash_compute_channel calls.to_lower name)
            (calls.same_text name (db.chan c).name) e in
        (==→eq (db.chan c).hashv (hash_compute_channel calls.to_lower name) h, s)

    other : (a b : Bool) → a ≡ true → (a && b) ≡ false → b ≡ false
    other true b e f = f
    other false b e f = cc

    pub is_chan-LacksName :
        (db : ChanfixDb) (cs : List ℕ)
        → All (λ c. IsHashed (db.chan c)) cs
        → All (λ c. is_chan calls db name (hash_compute_channel calls.to_lower name) c ≡ false) cs
        → All (λ c. LacksName (db.chan c)) cs
    is_chan-LacksName db cs =
        let hash = hash_compute_channel calls.to_lower name in
        All-zip (λ c. IsHashed (db.chan c)) (λ c. is_chan calls db name hash c ≡ false)
          (λ c. LacksName (db.chan c)) cs
          (λ c h f e.
            other ((db.chan c).hashv == hash) (calls.same_text name (db.chan c).name)
              (eq→== (db.chan c).hashv hash (h ∙ e)) f)

    -- A channel of the name without users that was never checked nor fixed
    pub record IsNew (size : ℕ) (c : Chan) : Type 0 where
      pub named : c.name ≡ name
      pub hashed : c.hashv ≡ hash_compute_channel calls.to_lower name
      pub sized : c.size ≡ size
      pub no_users : c.users_num ≡ 0
      pub no_lists : (b : ℕ) → c.users_offset b ≡ npos
      pub first : c.users_sorted_first ≡ npos
      pub last : c.users_sorted_last ≡ npos
      pub unseen : c.last_seen ≡ 0
      pub unchecked : c.checks ≡ 0
      pub unfixed : (c.fixed_time ≡ 0) × (c.fixed_passes ≡ 0)
      pub no_flags : c.flags ≡ 0

    pub new_chan-IsNew :
        (size : ℕ) → IsNew size (new_chan name size (hash_compute_channel calls.to_lower name))
    new_chan-IsNew size = record {
      named = refl;
      hashed = refl;
      sized = refl;
      no_users = refl;
      no_lists = λ b. refl;
      first = refl;
      last = refl;
      unseen = refl;
      unchecked = refl;
      unfixed = (refl, refl);
      no_flags = refl;
    }
