-- ===== src/Emulation/Lifecycle/Restart.antt =====
-- A network with faults that is started, stopped and started again (mininet/net.py).
use faultynet.Shared.{
  ℕ, ◌≡◌, refl, String, str_eq, Bool, true, false, Option, none, some, List, [], ◌∷◌, ◌++◌,
  append_assoc, ok, err, type_error, Result,
}
use faultynet.Emulation.{Member}
use faultynet.Emulation.Building.{Default}
use faultynet.Emulation.Lifecycle.{
  Life, Act, starter_made, faults_started, faults_stopped, a_class, an_object, logged, start, stop,
  started_acts, stopped_acts,
}

module _ (class_of : Member → String)
    (batch_start batch_stop : Member → Option (List Member → List Member)) (port_base : Member → ℕ)
    (is_ovs : Member → Bool) (defaults : List Default) (opened : ℕ) where
  abbrev starting : Life → Result Life
  starting = start class_of batch_start batch_stop port_base is_ovs defaults opened

  abbrev stopping : Life → Result Life
  stopping = stop class_of batch_start batch_stop port_base is_ovs defaults opened

  abbrev starts : Life → List Act
  starts = started_acts class_of batch_start batch_stop port_base is_ovs defaults opened

  abbrev stops : Life → List Act
  stops = stopped_acts class_of batch_start batch_stop port_base is_ovs defaults opened

  with_faults :
      (self : Life) (path : String)
      → self.built ≡ true
      → self.fault_path ≡ some path
      → str_eq path "" ≡ false
      → self.starter ≡ a_class true none
      → starting self
        ≡ ok (record self {
          starter = an_object;
          log = (self.log ++ starts self) ++ (starter_made ∷ faults_started ∷ []);
        })
  unfolding start
  with_faults self path built given named class = rw (built, given, named, class) refl

  stop_object :
      (self : Life) (path : String)
      → self.fault_path ≡ some path
      → self.starter ≡ an_object
      → stopping self ≡ ok (logged (faults_stopped ∷ []) (logged (stops self) self))
  unfolding stop
  stop_object self path given object = rw (given, object) refl

  again :
      (self : Life) (path : String)
      → self.built ≡ true
      → self.fault_path ≡ some path
      → str_eq path "" ≡ false
      → self.starter ≡ an_object
      → starting self ≡ err type_error
  unfolding start
  again self path built given named object = rw (built, given, named, object) refl

  -- A network that is built, with a fault file and the class of a starter, is started: its faults are
  -- started after its controllers and switches. It is stopped: its faults are stopped after all nodes.
  -- Then it cannot be started any more, which raises a TypeError.
  restart_fails :
      (self : Life) (path : String)
      → self.built ≡ true
      → self.fault_path ≡ some path
      → str_eq path "" ≡ false
      → self.starter ≡ a_class true none
      → (s1 s2 : Life) × (starting self ≡ ok s1)
        × (s1.log ≡ self.log ++ (starts self ++ (starter_made ∷ faults_started ∷ [])))
        × (stopping s1 ≡ ok s2)
        × (s2.log ≡ s1.log ++ (stops s1 ++ (faults_stopped ∷ [])))
        × (starting s2 ≡ err type_error)
  restart_fails self path built given named class =
      let s1 : Life = record self {
        starter = an_object;
        log = (self.log ++ starts self) ++ (starter_made ∷ faults_started ∷ []);
      } in
      let s2 : Life = logged (faults_stopped ∷ []) (logged (stops s1) s1) in
      (
        s1,
        s2,
        with_faults self path built given named class,
        append_assoc self.log (starts self) _,
        stop_object s1 path given refl,
        append_assoc s1.log (stops s1) _,
        again s2 path built given named refl,
      )
