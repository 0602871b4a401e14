-- ===== src/Provisioner/Permanent.antt =====
-- internal/provisioner/docker.go, provisioner.go: what the errors of `Provision` say to a worker.
use infraforge.Base.{
  ◌≡◌, refl, subst, ℕ, Text, txt, [], GoError, wrap, errors_is, err_transient, to_lower, true,
}
use infraforge.Model.{Job, ConnectionInfo, HttpEndpoint}
use infraforge.Provisioner.Classify.{classify_marked, OneOccurs, transient_patterns}
use infraforge.Provisioner.Docker.{Docker, Outcome, failed, returned, panicked, out_of_rounds}
use infraforge.Provisioner.Shell.{Images, classified, provision, provision_postgres, provision_http}

-- If the error's text names a known transient cause, a worker sees the error as transient.
abbrev IsMarked : GoError → Type 0
IsMarked e = OneOccurs (to_lower e.message) transient_patterns → errors_is e err_transient ≡ true

abbrev AllMarked : {A : Type 0} → Outcome A → Type 0
AllMarked (failed e) = IsMarked e
AllMarked _ = Unit

module _ {W : Type 0} (d : Docker W) (images : Images) (rounds : ℕ) where
  classified-IsMarked :
      (context : Text) (e : GoError) → IsMarked (classified d images rounds context e)
  classified-IsMarked context e =
      let (e', same, marked) = classify_marked (wrap context e []) in rw (same, classified) marked

provision-AllMarked :
    {W : Type 0} (d : Docker W) (images : Images) (rounds : ℕ) (j : Job) (w : W)
    → AllMarked (provision d images rounds j w).0
unfolding provision
provision-AllMarked {W} d images rounds j w = split (provision_postgres d images rounds j w).0 refl
  where
    w1 : W
    w1 = (provision_postgres d images rounds j w).1

    second :
        (conn : ConnectionInfo) (o : Outcome HttpEndpoint)
        → (provision_postgres d images rounds j w).0 ≡ returned conn
        → (provision_http d images rounds j w1).0 ≡ o
        → AllMarked (provision d images rounds j w).0
    second conn (failed e) h k =
        rw (h, provision) (rw k (classified-IsMarked d images rounds (txt "http: ") e))
    second conn (returned a) h k = rw (h, provision) (rw k tt)
    second conn panicked h k = rw (h, provision) (rw k tt)
    second conn out_of_rounds h k = rw (h, provision) (rw k tt)

    split :
        (o : Outcome ConnectionInfo)
        → (provision_postgres d images rounds j w).0 ≡ o
        → AllMarked (provision d images rounds j w).0
    split (failed e) h =
        rw (h, provision) (classified-IsMarked d images rounds (txt "postgres: ") e)
    split (returned conn) h = second conn (provision_http d images rounds j w1).0 h refl
    split panicked h = rw (h, provision) tt
    split out_of_rounds h = rw (h, provision) tt

-- An error of `Provision` that a worker takes for permanent names none of the known transient
-- causes: if its text, in lower case, contains one of the patterns, then it is transient.
pub provision_marked :
    {W : Type 0} (d : Docker W) (images : Images) (rounds : ℕ) (j : Job) (w : W) (e : GoError)
    → (provision d images rounds j w).0 ≡ failed e
    → OneOccurs (to_lower e.message) transient_patterns
    → errors_is e err_transient ≡ true
provision_marked d images rounds j w e h named =
    subst AllMarked h (provision-AllMarked d images rounds j w) named
