-- ===== src/CtpTrade/Logs/Connection.antt =====
-- What src/ctp-trade/ctp_trade_handler.cpp logs of its connection.
use babeltrader.Common.{List, [], ◌∷◌, ◌++◌, codes}
use babeltrader.Common.Int.{ℤ}
use babeltrader.Json.{Event, key, string, int}
use babeltrader.CtpTrade.Logs.{message, data_object, error_members}
use babeltrader.CtpTrade.Fields.Session.{
  RspInfoField, RspAuthenticateField, RspUserLoginField, UserPasswordUpdateField,
  SettlementInfoConfirmField,
}

module _ {D : Type 0} where
  unfoldable pub output_heartbeat_warning : ℤ → List (Event D)
  output_heartbeat_warning n_time_lapse =
      message "heartbeat_warning" (key (codes "time_elapse") ∷ int n_time_lapse ∷ [])

  unfoldable pub output_front_connected : List (Event D)
  output_front_connected = message "connected" []

  unfoldable pub output_front_disconnected : ℤ → List (Event D)
  output_front_disconnected reason =
      message "disconnected" (data_object (key (codes "reason") ∷ int reason ∷ []))

  unfoldable pub output_rsperror : RspInfoField → ℤ → List (Event D)
  output_rsperror info n_request_id =
      message "on_error" (key (codes "req_id") ∷ int n_request_id ∷ (error_members info))

  unfoldable pub output_password_update :
      UserPasswordUpdateField → RspInfoField → ℤ → List (Event D)
  output_password_update user_password_update info n_request_id = message "password_update" (
      key (codes "req_id")
      ∷ int n_request_id
      ∷ (error_members info
          ++ (data_object (
              key (codes "BrokerID")
              ∷ string user_password_update.broker_id
              ∷ key (codes "UserID")
              ∷ string user_password_update.user_id
              ∷ key (codes "OldPassword")
              ∷ string user_password_update.old_password
              ∷ key (codes "NewPassword")
              ∷ string user_password_update.new_password
              ∷ []))))

  unfoldable pub output_authenticate : RspAuthenticateField → RspInfoField → ℤ → List (Event D)
  output_authenticate rsp_authenticate_field info n_request_id = message "auth" (
      key (codes "req_id")
      ∷ int n_request_id
      ∷ (error_members info
          ++ (data_object (
              key (codes "BrokerID")
              ∷ string rsp_authenticate_field.broker_id
              ∷ key (codes "UserID")
              ∷ string rsp_authenticate_field.user_id
              ∷ key (codes "UserProductInfo")
              ∷ string rsp_authenticate_field.user_product_info
              ∷ key (codes "AppID")
              ∷ string rsp_authenticate_field.app_id
              ∷ []))))

  unfoldable pub output_rsp_user_login : RspUserLoginField → RspInfoField → ℤ → List (Event D)
  output_rsp_user_login rsp_user_login info n_request_id = message "login" (
      key (codes "req_id")
      ∷ int n_request_id
      ∷ (error_members info
          ++ (data_object (
              key (codes "TradingDay")
              ∷ string rsp_user_login.trading_day
              ∷ key (codes "LoginTime")
              ∷ string rsp_user_login.login_time
              ∷ key (codes "BrokerID")
              ∷ string rsp_user_login.broker_id
              ∷ key (codes "UserID")
              ∷ string rsp_user_login.user_id
              ∷ key (codes "SystemName")
              ∷ string rsp_user_login.system_name
              ∷ key (codes "FrontID")
              ∷ int rsp_user_login.front_id
              ∷ key (codes "SessionID")
              ∷ int rsp_user_login.session_id
              ∷ key (codes "MaxOrderRef")
              ∷ string rsp_user_login.max_order_ref
              ∷ key (codes "SHFETime")
              ∷ string rsp_user_login.shfe_time
              ∷ key (codes "DCETime")
              ∷ string rsp_user_login.dce_time
              ∷ key (codes "CZCETime")
              ∷ string rsp_user_login.czce_time
              ∷ key (codes "FFEXTime")
              ∷ string rsp_user_login.ffex_time
              ∷ key (codes "INETime")
              ∷ string rsp_user_login.ine_time
              ∷ []))))

  unfoldable pub output_rsp_user_logout : RspInfoField → ℤ → List (Event D)
  output_rsp_user_logout info n_request_id =
      message "logout" (key (codes "req_id") ∷ int n_request_id ∷ (error_members info))

  unfoldable pub output_rsp_settlement_confirm :
      SettlementInfoConfirmField → RspInfoField → ℤ → List (Event D)
  output_rsp_settlement_confirm settlement_info_confirm info n_request_id =
      message "rspsettlementconfirm" (
        key (codes "req_id")
        ∷ int n_request_id
        ∷ (error_members info
            ++ (data_object (
                key (codes "BrokerID")
                ∷ string settlement_info_confirm.broker_id
                ∷ key (codes "InvestorID")
                ∷ string settlement_info_confirm.investor_id
                ∷ key (codes "ConfirmDate")
                ∷ string settlement_info_confirm.confirm_date
                ∷ key (codes "ConfirmTime")
                ∷ string settlement_info_confirm.confirm_time
                ∷ key (codes "SettlementID")
                ∷ int settlement_info_confirm.settlement_id
                ∷ key (codes "AccountID")
                ∷ string settlement_info_confirm.account_id
                ∷ key (codes "CurrencyID")
                ∷ string settlement_info_confirm.currency_id
                ∷ []))))
