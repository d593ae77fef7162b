-- ===== src/Classes/Signatures.antt =====
-- What the classes declare of their methods, beside the methods that there are: the VM against the
-- interface, and the numbers of arguments against those that the bodies let through.
use php_handlebars.Base.{
  ◌≡◌, refl, Bool, true, false, not, ◌||◌, Option, none, some, is_some, List, [], ◌∷◌, ◌++◌, Text,
  lit, text_eq, All, if◌then◌else◌,
}
use php_handlebars.Zend.Outcome.{ok}
use php_handlebars.Classes.{Class, pointee, has_name}
use php_handlebars.Classes.ArgInfo.{MethodEntry}
use php_handlebars.Classes.Exceptions.{Builtins}
use php_handlebars.Classes.Impl.{impl_methods, base_impl_methods}
use php_handlebars.Classes.Vm.{vm_methods}
use php_handlebars.Classes.Registration.{Host, register_classes}
use php_handlebars.Classes.Hierarchy.{table, host, Host-cases, register_classes-ok}
use php_handlebars.Classes.Instances.{instance_of}

-- The method that PHP calls: a class's own stand before those it inherits.
abbrev pub find_method : Text → List MethodEntry → Option MethodEntry
find_method n [] = none
find_method n (m ∷ ms) = let rest = find_method n ms in if text_eq m.name n then some m else rest

-- The class has a body for the abstract method, declared as the interface declares it.
abbrev pub Implements : Class → MethodEntry → Type 0
Implements c m =
    (e : MethodEntry) × (find_method m.name c.methods ≡ some e)
    × (e.is_abstract ≡ false)
    × (e.arginfo ≡ m.arginfo)

-- The VM behind `Handlebars\BaseImpl`, with what `Handlebars\Impl` extends.
abbrev vm_class : List Text → List MethodEntry → Class
vm_class supers methods = record {
  name = lit "Handlebars\\VM";
  is_interface = false;
  supers = lit "Handlebars\\BaseImpl" ∷ lit "Handlebars\\Impl" ∷ supers;
  methods = vm_methods ++ (base_impl_methods ++ (impl_methods ++ methods));
}

Implements-vm_class :
    (supers : List Text) (methods : List MethodEntry)
    → All (Implements (vm_class supers methods)) impl_methods
Implements-vm_class supers methods = (
  (_, refl, refl, refl),
  (
    (_, refl, refl, refl),
    (
      (_, refl, refl, refl),
      (
        (_, refl, refl, refl),
        (
          (_, refl, refl, refl),
          (
            (_, refl, refl, refl),
            (
              (_, refl, refl, refl),
              ((_, refl, refl, refl), ((_, refl, refl, refl), ((_, refl, refl, refl), tt))),
            ),
          ),
        ),
      ),
    ),
  ),
)

-- PSR's interface is there wherever PSR is.
abbrev pub is_whole : Host → Bool
is_whole h = not h.has_psr || is_some h.logger_aware

abbrev VmImplements : Host → Type 0
VmImplements h =
    (vm : Class) × (pointee (lit "HandlebarsVM_ce_ptr") (table h) ≡ some vm)
    × (instance_of vm (lit "Handlebars\\Impl") ≡ true)
    × All (Implements vm) impl_methods

without_psr : (b : Builtins) (l : Option Class) (ast : Bool) → VmImplements (host b false l ast)
unfolding table register_classes has_name
without_psr b l true = (vm_class [] [], refl, refl, Implements-vm_class [] [])
without_psr b l false = (vm_class [] [], refl, refl, Implements-vm_class [] [])

with_psr : (b : Builtins) (c : Class) (ast : Bool) → VmImplements (host b true (some c) ast)
unfolding table register_classes has_name
with_psr b c true =
    let supers = c.name ∷ c.supers in
    (vm_class supers c.methods, refl, refl, Implements-vm_class supers c.methods)
with_psr b c false =
    let supers = c.name ∷ c.supers in
    (vm_class supers c.methods, refl, refl, Implements-vm_class supers c.methods)

-- Where PSR's interface is there if PSR is: after the registration, which comes to its end, the VM is an
-- instance of `Handlebars\Impl`, and for each abstract method of the interface PHP finds on it a
-- method with a body, declared with the same arguments and the same return type.
pub vm-Implements :
    (h : Host)
    → is_whole h ≡ true
    → (register_classes h ≡ ok (table h))
      × (vm : Class) × (pointee (lit "HandlebarsVM_ce_ptr") (table h) ≡ some vm)
      × (instance_of vm (lit "Handlebars\\Impl") ≡ true)
      × All (Implements vm) impl_methods
vm-Implements h whole =
    let (vm, found, instance_of_impl, all) =
      Host-cases (λ h. is_whole h ≡ true → VmImplements h) (λ b l ast w. without_psr b l ast)
        (λ b ast w. cc) (λ b c ast w. with_psr b c ast) h whole in
    (register_classes-ok h, vm, found, instance_of_impl, all)

abbrev Orphaned : Host → Type 0
Orphaned h =
    (pointee (lit "HandlebarsBaseImpl_ce_ptr") (table h) ≡ none)
    × (vm : Class) × (pointee (lit "HandlebarsVM_ce_ptr") (table h) ≡ some vm)
    × (instance_of vm (lit "Handlebars\\Impl") ≡ false)
    × (find_method (lit "getLogger") vm.methods ≡ none)
    × (find_method (lit "getDecorators") vm.methods ≡ none)
    × (find_method (lit "getHelpers") vm.methods ≡ none)
    × (find_method (lit "getPartials") vm.methods ≡ none)

-- Where PSR is loaded without its interface, the registration comes to its end all the same: there is
-- no `Handlebars\BaseImpl`, and the VM is no instance of `Handlebars\Impl` and has none of
-- the four getters.
pub orphaned_vm :
    (h : Host)
    → is_whole h ≡ false
    → (register_classes h ≡ ok (table h))
      × (pointee (lit "HandlebarsBaseImpl_ce_ptr") (table h) ≡ none)
      × (vm : Class) × (pointee (lit "HandlebarsVM_ce_ptr") (table h) ≡ some vm)
      × (instance_of vm (lit "Handlebars\\Impl") ≡ false)
      × (find_method (lit "getLogger") vm.methods ≡ none)
      × (find_method (lit "getDecorators") vm.methods ≡ none)
      × (find_method (lit "getHelpers") vm.methods ≡ none)
      × (find_method (lit "getPartials") vm.methods ≡ none)
unfolding table register_classes has_name
orphaned_vm h broken =
    let (base, vm, found, foreign, logger, decorators, helpers, partials) =
      Host-cases (λ h. is_whole h ≡ false → Orphaned h) (λ b l ast w. cc)
        (λ b ast w. elim ast as (λ ast. Orphaned (host b true none ast)) [
          | true ↦ (refl, _, refl, refl, refl, refl, refl, refl)
          | false ↦ (refl, _, refl, refl, refl, refl, refl, refl)
        ])
        (λ b c ast w. cc) h broken in
    (register_classes-ok h, base, vm, found, foreign, logger, decorators, helpers, partials)
