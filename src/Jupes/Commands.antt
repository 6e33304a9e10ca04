-- ===== src/Jupes/Commands.antt =====
-- The commands of operators: _do_jupe, _do_unjupe and _do_jupes.
use efnet_services.Common.{
  ℕ, Bool, true, false, not, ◌+◌, ◌&&◌, ◌||◌, Option, none, some, List, [], ◌∷◌, ◌++◌, ◌==◌, ltb,
  if◌then◌else◌, update, length, take,
}
use efnet_services.Links.{add_to_list, del_from_list}
use efnet_services.Run.{Text}
use efnet_services.Args.{si_next_subarg_space, skip}
use efnet_services.Jupes.{
  Jupe, Jupes, Caller, World, Memory, Reply, ok, efault, einval, enomem, enoent, eacces, stuck,
  timeout, chain_of,
}
use efnet_services.Jupes.Prune.{jupe_find, prune, free_jupe}
use efnet_services.Jupes.Votes.{find_svote, find_uvote, cast_vote}

-- SERVERLEN of include/services.h
abbrev pub server_len : ℕ
server_len = 63

-- "services" and "services.int"
abbrev pub username : Text
username = 115 ∷ 101 ∷ 114 ∷ 118 ∷ 105 ∷ 99 ∷ 101 ∷ 115 ∷ []

abbrev pub hostname : Text
hostname = username ++ (46 ∷ 105 ∷ 110 ∷ 116 ∷ [])

-- "JUPED: "
abbrev pub juped_prefix : Text
juped_prefix = 74 ∷ 85 ∷ 80 ∷ 69 ∷ 68 ∷ 58 ∷ 32 ∷ []

-- `strchr(name, '.') != NULL`
abbrev pub has_dot : Text → Bool
has_dot [] = false
has_dot (c ∷ cs) = c == 46 || has_dot cs

-- `while (*args == ' ') args++`, when there are arguments; a NULL is like an empty text from there on.
abbrev pub reason_of : Option Text → Text
reason_of none = []
reason_of (some args) = skip 32 args

abbrev pub is_empty : Text → Bool
is_empty [] = true
is_empty (c ∷ cs) = false

-- What _do_unjupe does when the search for the jupe is over
unfoldable pub unjupe_found : Option ℕ × Jupes → Reply × Jupes
unfolding free_jupe
unjupe_found (none, db) = (stuck, db)
unjupe_found (some pos, db) =
    let c = del_from_list 0 pos (chain_of db) in
    if pos == 0
    then (enoent, db)
    else if (db.jupe pos).conffile
    then (eacces, db)
    else if not (db.jupe pos).active
    then (eacces, db)
    else (ok, free_jupe pos (record db { first = c.first; links = c.links }))

-- The end of _do_jupes
abbrev pub jupes_done : Option ℕ × Jupes → Reply × Jupes
jupes_done (none, db) = (stuck, db)
jupes_done (some pos, db) = (ok, db)

module _ (world : World) where
  -- _jupes_ignore
  unfoldable pub is_ignored : List Text → Text → Bool
  is_ignored [] string = false
  is_ignored (ig ∷ igs) string = world.matches ig string || is_ignored igs string

  -- The test at the start of _do_jupe and of _do_unjupe
  unfoldable pub is_refused : Caller → Bool
  unfolding is_ignored
  is_refused from =
      not from.authed
      && (is_ignored world.ouh_ignores from.userhost || is_ignored world.oserv_ignores from.server)

  -- The names that cannot be juped: the daemon's own, and the uplink's.
  unfoldable pub is_ours : Text → Bool
  is_ours tojupe = world.matches tojupe world.my_name || elim world.uplink [
    | none ↦ false
    | some uplink ↦ world.matches tojupe uplink || world.matches uplink tojupe
  ]

  abbrev pub new_jupe : Text → Text → Jupe
  new_jupe tojupe reason = record {
    name = tojupe;
    reason = take 128 (juped_prefix ++ reason);
    username = username;
    hostname = hostname;
    creation = world.now;
    last_heard = 0;
    expires = world.now + timeout;
    active = false;
    conffile = false;
    score = 0;
    svotes = [];
  }

  -- The writes of _do_jupe for a new jupe
  unfoldable pub link_jupe : ℕ → Text → Text → Jupes → Jupes
  link_jupe pos tojupe reason db =
      let c = add_to_list 0 pos (chain_of db) in
      record db {
        first = c.first;
        links = c.links;
        jupe = update db.jupe pos (new_jupe tojupe reason);
      }

  -- The part of _do_jupe for a jupe that there is
  unfoldable pub vote_for : Memory → Caller → ℕ → Jupes → Reply × Jupes
  unfolding find_svote find_uvote cast_vote
  vote_for memory from pos db =
      let j = db.jupe pos in
      if j.active then (einval, db) else elim (find_uvote world.same_text j.svotes from.userhost) [
        | some uv ↦ (einval, db)
        | none ↦ elim (find_svote world.same_text j.svotes from.server) [
          | some sv ↦ (einval, db)
          | none ↦ cast_vote world memory.vote from pos db
        ]
      ]

  -- The part of _do_jupe for a jupe that there is not
  unfoldable pub call_for : Memory → Caller → Text → Text → Jupes → Reply × Jupes
  unfolding cast_vote link_jupe
  call_for memory from tojupe reason db =
      if is_empty reason then (einval, db) else elim memory.jupe [
        | none ↦ (enomem, db)
        | some pos ↦
            if not memory.strings
            then (enomem, db)
            else cast_vote world memory.vote from pos (link_jupe pos tojupe reason db)
      ]

  -- What _do_jupe does when the search for the jupe is over
  unfoldable pub jupe_found : Memory → Caller → Text → Text → Option ℕ × Jupes → Reply × Jupes
  unfolding vote_for call_for
  jupe_found memory from tojupe reason (none, db) = (stuck, db)
  jupe_found memory from tojupe reason (some pos, db) =
      if pos == 0 then call_for memory from tojupe reason db else vote_for memory from pos db

  -- _do_jupe with the name and the reason
  unfoldable pub jupe_name : ℕ → Memory → Caller → Text → Text → Jupes → Reply × Jupes
  unfolding jupe_found jupe_find is_ours
  jupe_name fuel memory from tojupe reason db =
      if is_empty tojupe || is_ours tojupe
      then (ok, db)
      else if not (has_dot tojupe) || ltb server_len (length tojupe)
      then (einval, db)
      else jupe_found memory from tojupe reason (jupe_find world fuel tojupe db)

  -- _do_jupe
  unfoldable pub do_jupe : ℕ → Memory → Caller → Option Text → Jupes → Reply × Jupes
  unfolding jupe_name is_refused
  do_jupe fuel memory from args db =
      let arg = si_next_subarg_space args in
      if is_refused from then (efault, db) else elim arg.0 [
        | none ↦ (ok, db)
        | some tojupe ↦ jupe_name fuel memory from tojupe (reason_of arg.1) db
      ]

  -- _do_unjupe
  unfoldable pub do_unjupe : ℕ → Caller → Option Text → Jupes → Reply × Jupes
  unfolding unjupe_found jupe_find is_refused
  do_unjupe fuel from args db =
      if is_refused from then (efault, db) else elim (si_next_subarg_space args).0 [
        | none ↦ (einval, db)
        | some tojupe ↦
            if is_empty tojupe then (einval, db) else unjupe_found (jupe_find world fuel tojupe db)
      ]

  -- _do_jupes
  unfoldable pub do_jupes : ℕ → Jupes → Reply × Jupes
  unfolding prune
  do_jupes fuel db = jupes_done (prune world fuel db)
