-- ===== src/Tests/WebRuns.antt =====
-- Runs of the example web server.
use hambone.Base.{
  ◌≡◌, refl, String, false, Option, some, none, [], ◌∷◌, String-discrete, ◌==◌, if◌then◌else◌,
  remove_returns, split, join,
}
use hambone.Base.Prefix.{has_code}
use hambone.Go.{Error}
use hambone.Helpers.{mkdir_file}
use hambone.State.Receiver.{machine}
use hambone.Etcd.Adapter.{
  get_instance_key, get_file_key, get_session_and_mutex,
  old_instance_equals_current_instance_if_set, write_files,
}
use hambone.State.Cleanup as Cleanup
use hambone.Etcd.Getter as Getter
use hambone.Etcd.Getter.{run}
use hambone.Etcd.Getter.Run.{instance_named}
use hambone.Etcd.Updater as Updater
use hambone.Etcd.Server.{etcd_server}
use hambone.Etcd.Shared.Swaps.{Swapped}
use hambone.Instances.Requests.{
  names_equate, validate, apply_call, apply, refresh, handle_apply, handle_get,
}
use hambone.Examples.Api.{Api, connected}
use hambone.Examples.Web.{
  Request, Page, not_found, save_instance, save_handler, save_new_handler, view_handler,
  load_instance, execute_template,
}
use hambone.Examples.Web.Routes.{is_name, serve, validation_handler}
use hambone.Examples.Web.Saved.{save-swaps}
use hambone.Examples.Web.Saved.Shown.{saved-shown, new-not_shown, all_word_chars}
use hambone.Tests.Cluster.{cluster, lawful_cluster}
use hambone.Tests.Machine.{box_os, no_items}
use hambone.Tests.Setup.{settings, TestWorld, full_world}
use hambone.Tests.Busy.{busy, shared_busy}
use hambone.Tests.SharedRuns.{BusyWorld, crowded}

-- A form with a yaml that was typed into a browser.
abbrev form : String → String → String → Request
form path name old = record {
  path = path;
  form_value = λ field.
      if field == "kustomizationYaml"
      then "y\r\n"
      else if field == "oldKustomizationYaml"
      then old
      else name;
}

abbrev no_error : String → Page → Option Error
no_error file p = none

abbrev client : Api TestWorld
client =
    connected (machine box_os) no_items
      (etcd_server cluster box_os settings "instances" "templates" false false)

abbrev busy_client : Api BusyWorld
busy_client =
    connected (machine box_os) no_items
      (etcd_server busy box_os settings "instances" "templates" false false)

save-swaps_example :
    let r = form "/instance/save/web" "" "x\r" in
    Swapped busy shared_busy box_os "hambone_instance_web"
      (some "x")
      (some "y\n")
      (save_handler busy_client r "web" crowded).1.etcd
    × (has_code 13 "x" ≡ false)
    × (has_code 13 "y\n" ≡ false)
unfolding save_handler remove_returns apply get_instance_key get_file_key String-discrete apply_call
    Updater.init get_session_and_mutex old_instance_equals_current_instance_if_set mkdir_file
    write_files validate Updater.commit Updater.put_files refresh names_equate handle_apply
    save_instance Updater.run_cleanup_funcs Cleanup.run_cleanup_funcs Cleanup.reverse_slice
    Cleanup.reverse_rounds Cleanup.swap Cleanup.set Cleanup.get_elem?
save-swaps_example =
    save-swaps busy shared_busy box_os settings no_items "instances" "templates" false false
      (form "/instance/save/web" "" "x\r") "web" "/instance/view/web" crowded refl

saved-shown_example :
    let r = form "/instance/save/web" "" "x\r" in
    (serve client no_error
      (form "/instance/view/web" "" "")
      (serve client no_error r full_world).1).0
    ≡ execute_template client no_error "view" (instance_named "web" "y\n")
unfolding save_handler remove_returns apply get_instance_key get_file_key String-discrete apply_call
    Updater.init get_session_and_mutex old_instance_equals_current_instance_if_set mkdir_file
    write_files validate Updater.commit Updater.put_files refresh names_equate handle_apply
    save_instance is_name serve split join validation_handler load_instance handle_get run
    Getter.run_cleanup_funcs Updater.run_cleanup_funcs Cleanup.run_cleanup_funcs
    Cleanup.reverse_slice Cleanup.reverse_rounds Cleanup.swap Cleanup.set Cleanup.get_elem?
saved-shown_example =
    saved-shown cluster lawful_cluster box_os settings no_items "instances" "templates" false
      no_error (form "/instance/save/web" "" "x\r") (form "/instance/view/web" "" "") "web"
      "/instance/view/web" full_world refl refl refl refl refl

new-not_shown_example :
    let next = form "/instance/view/we_b" "" "" in
    validation_handler (view_handler client no_error) next full_world ≡ (not_found ∷ [], full_world)
unfolding save_new_handler remove_returns apply get_instance_key get_file_key String-discrete
    apply_call Updater.init get_session_and_mutex old_instance_equals_current_instance_if_set
    mkdir_file write_files validate Updater.commit Updater.put_files refresh names_equate
    handle_apply save_instance is_name all_word_chars Updater.run_cleanup_funcs
    Cleanup.run_cleanup_funcs Cleanup.reverse_slice Cleanup.reverse_rounds Cleanup.swap Cleanup.set
    Cleanup.get_elem?
new-not_shown_example =
    new-not_shown client (form "/instance/savenew/" "we_b" "") (form "/instance/view/we_b" "" "")
      "/instance/view/we_b" (view_handler client no_error) full_world full_world refl refl refl refl
