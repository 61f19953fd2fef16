-- ===== src/Ui/SettingsTabs.antt =====
-- The two tabs of the settings: authority/manage-ui/src/components/settings/ConnectionsTab.tsx and
-- AuthorizersTab.tsx.
use agience.Base.{String}
use agience.Js.Value.{Value}
use agience.Html.{events}
use agience.Html.Events.{Each, Takes}
use agience.Ui.Dispatch.{run_all}
use agience.Ui.Dispatch.Sending.{UiSends}
use agience.Ui.Forms
use agience.Ui.ConnectionForm
use agience.Ui.Connections
use agience.Ui.Connections.Page.Confirmed.{ConnectionPermitted, connections_page-Confirmed}
use agience.Ui.Authorizers
use agience.Ui.Authorizers.Page.Confirmed.{AuthorizerPermitted, authorizers_page-Confirmed}

-- Whatever the states of the tabs of the connections and of the authorizers and of their forms, an
-- event of what is shown takes one action at most, and only where the state allows it: an item is
-- selected by its id only from the list, which has been loaded; the form is used only while it is
-- open, and only the selected item is edited or deleted, while the form is closed; a notification
-- is closed only while it is open, and a deletion confirmed or cancelled only while its dialog is
-- open and nothing is loading. And whatever the handlers are answered, they send no DELETE request
-- but the one for the connection, or the authorizer, of the open dialog.
pub tabs-Confirmed :
    (date_text : Value → String) (g : ConnectionForm.View) (k : Connections.View) (f : Forms.View)
    (c : Authorizers.View)
    → (Each
          (Takes (Connections.Page.Confirmed.Allowed k))
          (events (Connections.Page.page date_text g k))
        × Each
            (λ acts. UiSends (ConnectionPermitted k) (run_all (Connections.Page.perform g k) acts))
            (events (Connections.Page.page date_text g k)))
      × (Each
            (Takes (Authorizers.Page.Confirmed.Allowed c))
            (events (Authorizers.Page.page date_text f c))
          × Each
              (λ acts.
                UiSends (AuthorizerPermitted c) (run_all (Authorizers.Page.perform f c) acts))
              (events (Authorizers.Page.page date_text f c)))
tabs-Confirmed date_text g k f c =
    (connections_page-Confirmed date_text g k, authorizers_page-Confirmed date_text f c)
