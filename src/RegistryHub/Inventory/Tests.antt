-- ===== src/RegistryHub/Inventory/Tests.antt =====
-- Runs and instances for Update of
-- application/registry-hub/src/internal/inventory/repository.go: values and bodies are texts.
use k8s_at_home.Prelude.{
  String, none, some, [], ◌∷◌, ◌≡◌, refl, inr, str_eq, eq_of-str_eq, if◌then◌else◌,
}
use k8s_at_home.RegistryHub.Errors.{Result, ok, sentinel, unknown_commit, is}
use k8s_at_home.RegistryHub.Storage.{Disk, World, update, after, pure, attempt, get, put, ◌>>=◌}
use k8s_at_home.RegistryHub.Storage.Keeps.{Order, Keeps-pure}
use k8s_at_home.RegistryHub.Inventory.{Json, read, update_value}
use k8s_at_home.RegistryHub.Inventory.Sample.{tagging}
use k8s_at_home.RegistryHub.Inventory.Atomic.{Current, Outcome, update_value-Outcome}
use k8s_at_home.RegistryHub.Inventory.Quiet.{Done, update_value-Done}

abbrev json : Json String String
json = record {
  encode = λ v. v;
  decode = λ b. some b;
  size = λ b. 0;
  same = str_eq;
  same→eq = eq_of-str_eq;
}

abbrev closing : String → Result String
closing s = ok "closed"

abbrev disk : Disk String
disk k = if str_eq k "image" then some "open" else none

update_value-Done_example : Done tagging json "image" "" closing 7 disk "open" "closed" (
    update_value tagging json "image"
      (pure tt)
      ""
      closing
      (record { disk = disk; clock = 7; script = [] }))
update_value-Done_example =
    update_value-Done tagging json "image" "" closing 7 disk "open" "closed"
      (inr ("open", refl, refl, refl)) refl refl

-- The write happens, and its answer is lost.
abbrev lossy : World String
lossy = record {
  disk = disk;
  clock = 7;
  script =
      record { others = λ d. d; elapsed = 1; fault = none }
      ∷ record { others = λ d. d; elapsed = 1; fault = some (after (sentinel unknown_commit)) }
      ∷ [];
}

lossy_succeeds : (update_value tagging json "image" (pure tt) "" closing lossy).0 ≡ ok tt
unfolding update_value ◌>>=◌ attempt read get put is
lossy_succeeds = refl

-- An image that is closed stays closed.
abbrev StaysClosed : Disk String → Disk String → Type 0
StaysClosed d e = d "image" ≡ some "closed" → e "image" ≡ some "closed"

order_of_images : Order StaysClosed
order_of_images = record { stay = λ d h. h; chain = λ d e f h k c. k (h c) }

closes :
    (d : Disk String) (v next : String)
    → Current tagging json "image" (pure tt) "" closing StaysClosed d v
    → closing v ≡ ok next
    → StaysClosed d (update d "image" (some next))
unfolding update
closes d v next h e c = cc

update_value-Outcome_example :
    Outcome tagging json "image"
      (pure tt)
      ""
      closing
      StaysClosed
      disk
      (update_value tagging json "image" (pure tt) "" closing lossy).1.disk
update_value-Outcome_example =
    update_value-Outcome tagging json "image" (pure tt) "" closing StaysClosed lossy order_of_images
      (Keeps-pure order_of_images tt tt) closes (λ d h. h, (λ d h. h, tt)) lossy_succeeds
