-- ===== src/Jupes/Prune.antt =====
-- The loops over the list of jupes that take out what has expired: _jupe_find and the loop of
-- _do_jupes, with _jupe_check_expired and _jupe_free. The loops take fuel, one more than there are
-- jupes, since the code does not count them.
use efnet_services.Common.{
  ℕ, zero, suc, Bool, false, not, ◌&&◌, Option, none, some, ◌==◌, leb, if◌then◌else◌, update,
}
use efnet_services.Links.{set_next_if}
use efnet_services.Run.{Text}
use efnet_services.Jupes.{Jupe, Jupes, World}

-- _jupe_check_expired
unfoldable pub is_expired : ℕ → Jupe → Bool
is_expired now j = not (j.expires == 0) && leb j.expires now

-- _jupe_free, which removes the client of an active jupe from the module.
unfoldable pub free_jupe : ℕ → Jupes → Jupes
free_jupe pos db =
    if (db.jupe pos).active then record db { juped = update db.juped pos false } else db

-- The body of the test for an expired jupe: the `_prev` of the next record stays as it is.
unfoldable pub drop_jupe : ℕ → ℕ → Jupes → Jupes
unfolding set_next_if
drop_jupe prevj j db = free_jupe j (record db {
  first = if prevj == 0 then db.links.next j else db.first;
  links = set_next_if 0 prevj (db.links.next j) db.links;
})

-- The loop, with the test for a jupe that is taken out and that for one at which the loop stops: the
-- jupe of the stop, or 0 at the end.
unfoldable pub prune_loop : ℕ → (Jupe → Bool) → (Jupe → Bool) → ℕ → ℕ → Jupes → Option ℕ × Jupes
prune_loop zero drops stops j prevj db = (none, db)
prune_loop (suc fuel) drops stops j prevj db =
    let jp = db.jupe j in
    let rest =
      prune_loop fuel drops stops (db.links.next j) (if drops jp then prevj else j)
        (if drops jp then drop_jupe prevj j db else db) in
    if j == 0
    then (some 0, db)
    else if drops jp
    then rest
    else if stops jp
    then (some j, db)
    else rest

-- _jupe_find
unfoldable pub jupe_find : World → ℕ → Text → Jupes → Option ℕ × Jupes
jupe_find world fuel name db =
    prune_loop fuel (λ j. world.same_text name j.name && is_expired world.now j)
      (λ j. world.same_text name j.name) db.first 0 db

-- The loop of _do_jupes
unfoldable pub prune : World → ℕ → Jupes → Option ℕ × Jupes
prune world fuel db = prune_loop fuel (is_expired world.now) (λ _. false) db.first 0 db
